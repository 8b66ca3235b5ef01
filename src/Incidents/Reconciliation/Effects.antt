-- ===== src/Incidents/Reconciliation/Effects.antt =====
-- Which incidents the reconciliation closes.
use mathlib.Core.Option
use disk_pulse.Prelude.{
  ℕ, String, ◌≡◌, refl, Bool, true, false, not, ◌&&◌, Option, List, [], ◌∷◌, arith, ◌==◌, select,
  all, update_where, length, if◌then◌else◌, find-update_where, Option-cases, inl, inr, All,
  All-update_where,
}
use disk_pulse.Prelude.Time.{Instant}
use disk_pulse.Incidents.Db.{Incident, IncidentEvidence, IncidentDb, get_incident}
use disk_pulse.Incidents.Correlation.{is_resolved}
use disk_pulse.Incidents.Correlation.Consistency.{IsConsistent}
use disk_pulse.Incidents.Reconciliation.{
  VendorAlert, noncritical, legacy_noncritical_vendor_incident, close, candidates, is_candidate,
  scanned_row, evidence_of, reconcile_legacy_vendor_incidents,
}

select-closed :
    (p q : Incident → Bool) (f : Incident → Incident)
    → ((x : Incident) → p (f x) ≡ false)
    → (xs : List Incident) → length (select q (select p (update_where (λ x. p x && q x) f xs))) ≡ 0
unfolding select update_where
select-closed p q f closes [] = refl
select-closed p q f closes (x ∷ xs) = ground (arith, closes x, select-closed p q f closes xs)

module _ (lower : String → String) (severity_of : Option ℕ → String → Option VendorAlert) where
  -- A run that is no dry run closes exactly the candidates, at the time of the run, and leaves every
  -- other incident as it was; a dry run leaves everything. The counts agree with that.
  pub reconcile_legacy_vendor_incidents-get_incident :
      (dry_run : Bool) (now : Instant) (db : IncidentDb) (n : ℕ)
      → let (r, db') = reconcile_legacy_vendor_incidents lower severity_of dry_run now db in
        (get_incident db' n
          ≡ Option.map
              (λ i. if not dry_run && is_candidate lower severity_of db i then close now i else i)
              (get_incident db n))
        × (r.closed ≡ (if dry_run then 0 else r.would_close))
  unfolding reconcile_legacy_vendor_incidents
  reconcile_legacy_vendor_incidents-get_incident true now db n =
      (elim (Option-cases (get_incident db n)) [ inl e ↦ rw e refl | inr (i, e) ↦ rw e refl ], refl)
  reconcile_legacy_vendor_incidents-get_incident false now db n = (
    find-update_where (is_candidate lower severity_of db) (λ (i : Incident). i.id == n) (close now)
        (λ x h. refl) db.incidents,
    refl,
  )

  -- A second run right after the first has nothing left to close.
  pub reconcile_legacy_vendor_incidents_again :
      (now now' : Instant) (dry_run : Bool) (db : IncidentDb)
      → let db' = (reconcile_legacy_vendor_incidents lower severity_of false now db).1 in
        (reconcile_legacy_vendor_incidents lower severity_of dry_run now' db').0.would_close ≡ 0
  unfolding reconcile_legacy_vendor_incidents candidates legacy_noncritical_vendor_incident
  reconcile_legacy_vendor_incidents_again now now' true db =
      select-closed scanned_row (legacy_noncritical_vendor_incident lower severity_of db)
        (close now) (λ x. ground arith) db.incidents
  reconcile_legacy_vendor_incidents_again now now' false db =
      select-closed scanned_row (legacy_noncritical_vendor_incident lower severity_of db)
        (close now) (λ x. ground arith) db.incidents

  all-noncritical :
      (cluster : Option ℕ) (es : List IncidentEvidence)
      → all
          (λ (e : IncidentEvidence).
            noncritical lower severity_of (severity_of cluster e.source_ref))
          es
        ≡ true
      → All
          (λ (e : IncidentEvidence).
            noncritical lower severity_of (severity_of cluster e.source_ref) ≡ true)
          es
  unfolding all
  all-noncritical cluster [] h = tt
  all-noncritical cluster (e ∷ es) h =
      (ground (arith, h), all-noncritical cluster es (ground (arith, h)))

  -- Nothing that may matter is closed: a candidate is an unresolved device fault, and every piece of
  -- its evidence is known to the vendor's log, and not critical there.
  pub is_candidate-noncritical :
      (db : IncidentDb) (i : Incident)
      → is_candidate lower severity_of db i ≡ true
      → (is_resolved i.status ≡ false)
        × All
            (λ (e : IncidentEvidence).
              noncritical lower severity_of (severity_of i.storage_cluster_id e.source_ref) ≡ true)
            (evidence_of db i)
  unfolding legacy_noncritical_vendor_incident
  is_candidate-noncritical db i h = (
    ground (arith, h),
    all-noncritical i.storage_cluster_id (evidence_of db i) (ground (arith, h)),
  )

  -- The reconciliation keeps the time of the resolution and the status of every incident together.
  pub reconcile_legacy_vendor_incidents-IsConsistent :
      (dry_run : Bool) (now : Instant) (db : IncidentDb)
      → All IsConsistent db.incidents
      → All IsConsistent
          (reconcile_legacy_vendor_incidents lower severity_of dry_run now db).1.incidents
  unfolding reconcile_legacy_vendor_incidents
  reconcile_legacy_vendor_incidents-IsConsistent true now db h = h
  reconcile_legacy_vendor_incidents-IsConsistent false now db h =
      All-update_where IsConsistent _ _ (λ x _ _. refl) db.incidents h
