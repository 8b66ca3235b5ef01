-- ===== src/Alerts/Evaluation/Pass/Replay.antt =====
-- A pass of `evaluate_storage_alerts` of backend/celery_tasks/tasks/storage_alerts.py that is run again on
-- the same sample, as a task that is delivered twice.
use disk_pulse.Prelude.{
  ℕ, String, ◌≡◌, ◌⊎◌, refl, sym, ap, subst, ◌∙◌, inl, inr, true, Option, none, some, List, [], ◌∷◌,
  All, Option-cases,
}
use disk_pulse.Prelude.Exec.{ok, Result-cases}
use disk_pulse.Access.Db.{User}
use disk_pulse.Alerts.Rule.{StorageAlertRule, TargetType, rule_dict}
use disk_pulse.Alerts.Transition.{AlertState, TransitionResult, Sample, transition_alert_state}
use disk_pulse.Alerts.Transition.Observed.{seen_at, seen_by, no_soft, skipped-transition}
use disk_pulse.Alerts.Evaluation.{
  StateRow, Tables, Settings, Subject, find_state, effective_rule, ratio_of, write_state,
  against_row, without_row, sample_of, evaluate_ratio, evaluate_one,
}
use disk_pulse.Alerts.Evaluation.Pass.{
  Refreshed, Resources, system_rule_of, subjects, evaluate_each, evaluate_storage_alerts,
  in_transaction, append_to, and_then,
}
use disk_pulse.Alerts.Evaluation.Pass.Known.{
  Skips, against_row-Skips, without_row-Skips, write_result-skipped,
}
use disk_pulse.Alerts.Evaluation.Pass.Kept.{evaluate_one-known}
use disk_pulse.Alerts.Evaluation.Pass.Returned.{committed-err, committed-ok, and_then-ok}

-- Another evaluation of the target does nothing.
abbrev pub Quiet : StorageAlertRule → ℕ → Subject → List StateRow → Type 0
Quiet system_rule now x states =
    (rule : StorageAlertRule) × (effective_rule system_rule x ≡ ok rule)
    × ((ratio_of rule.quota_basis x.target ≡ none)
        ⊎ ((ratio : ℕ) × (ratio_of rule.quota_basis x.target ≡ some ratio)
            × (rule_dict rule ≡ ok rule)
            × Skips now rule (sample_of x.target ratio now) x.target_type x.target.id states))

module _ (dc : Option ℕ → String) (dr : ℕ → String) (sig : StorageAlertRule → String) (c : Settings)
    (users : List User) where
  evaluate_ratio-Skips :
      (x : Subject) (rule : StorageAlertRule) (ratio now : ℕ) (o : Option AlertState) (db : Tables)
      (id : Option ℕ)
      → find_state x.target_type x.target.id db.states ≡ o
      → (evaluate_ratio dc dr sig c users x rule ratio now o db).0 ≡ ok id
      → (rule_dict rule ≡ ok rule)
        × Skips now rule
            (sample_of x.target ratio now)
            x.target_type
            x.target.id
            (evaluate_ratio dc dr sig c users x rule ratio now o db).1.states
  unfolding evaluate_ratio
  evaluate_ratio-Skips x rule ratio now none db id found h =
      without_row-Skips dc dr sig c users x rule ratio (sample_of x.target ratio now) x.rival db id
        found h
  evaluate_ratio-Skips x rule ratio now (some s) db id found h =
      against_row-Skips dc dr sig c users x rule ratio (sample_of x.target ratio now) s db id found
        h

  evaluate_one-Quiet :
      (system_rule : StorageAlertRule) (now : ℕ) (x : Subject) (db : Tables) (id : Option ℕ)
      → (evaluate_one dc dr sig c users system_rule now x db).0 ≡ ok id
      → Quiet system_rule now x (evaluate_one dc dr sig c users system_rule now x db).1.states
  unfolding evaluate_one
  evaluate_one-Quiet system_rule now x db id h =
      elim (Result-cases (effective_rule system_rule x)) [
        | inl (e, f) ↦ cc (rw (f, evaluate_one) at h)
        | inr (rule, f) ↦ elim (Option-cases (ratio_of rule.quota_basis x.target)) [
          | inl g ↦ (rule, f, inl g)
          | inr (ratio, g) ↦
              let (valid, skips) =
                evaluate_ratio-Skips x rule ratio now
                  (find_state x.target_type x.target.id db.states) db id refl
                  (rw (f, g, evaluate_one) at h) in
              rw (f, g, evaluate_one) (rule, refl, inr (ratio, g, valid, skips))
        ]
      ]

  -- An evaluation of a target of which nothing is new.
  skipped_row :
      (x : Subject) (rule : StorageAlertRule) (ratio : ℕ) (sample : Sample) (o : Option AlertState)
      (db : Tables)
      → rule_dict rule ≡ ok rule
      → find_state x.target_type x.target.id db.states ≡ o
      → Skips sample.observed_at rule sample x.target_type x.target.id db.states
      → (r : TransitionResult) × (transition_alert_state sig o rule sample ≡ ok r)
        × (r.skipped ≡ true)
  skipped_row x rule ratio sample o db valid found h =
      let why : (no_soft rule sample ≡ true) ⊎ (seen_by sample.observed_at (seen_at o) ≡ true) =
        elim h [ inl soft ↦ inl soft | inr seen ↦ inr (rw found at seen) ] in
      let (r, same, skips, state) = skipped-transition sig o rule sample valid why in
      (r, same, skips)

  evaluate_ratio-quiet :
      (x : Subject) (rule : StorageAlertRule) (ratio now : ℕ) (o : Option AlertState) (db : Tables)
      → rule_dict rule ≡ ok rule
      → find_state x.target_type x.target.id db.states ≡ o
      → Skips now rule (sample_of x.target ratio now) x.target_type x.target.id db.states
      → evaluate_ratio dc dr sig c users x rule ratio now o db ≡ (ok none, db)
  unfolding evaluate_ratio without_row against_row
  evaluate_ratio-quiet x rule ratio now none db valid found h =
      let (r, same, skips) =
        skipped_row x rule ratio (sample_of x.target ratio now) none db valid found h in
      rw (same, skips, evaluate_ratio, without_row) refl
  evaluate_ratio-quiet x rule ratio now (some s) db valid found h =
      let (r, same, skips) =
        skipped_row x rule ratio (sample_of x.target ratio now) (some s) db valid found h in
      rw
        (
          same,
          write_result-skipped dc dr sig c users x rule ratio now
              (write_state x.target_type x.target.id) r db skips,
          evaluate_ratio,
          against_row,
        )
        refl

  Quiet-evaluate_one :
      (system_rule : StorageAlertRule) (now : ℕ) (x : Subject) (db : Tables)
      → Quiet system_rule now x db.states
      → evaluate_one dc dr sig c users system_rule now x db ≡ (ok none, db)
  unfolding evaluate_one
  Quiet-evaluate_one system_rule now x db (rule, f, inl g) = rw (f, g, evaluate_one) refl
  Quiet-evaluate_one system_rule now x db (rule, f, inr (ratio, g, valid, skips)) =
      rw (f, g, evaluate_one)
        (evaluate_ratio-quiet x rule ratio now (find_state x.target_type x.target.id db.states) db
          valid refl skips)

  -- A target stays quiet while others are evaluated at the same time.
  Quiet-kept :
      (system_rule : StorageAlertRule) (now : ℕ) (x y : Subject) (db : Tables)
      → Quiet system_rule now x db.states
      → Quiet system_rule now x (evaluate_one dc dr sig c users system_rule now y db).1.states
  Quiet-kept system_rule now x y db (rule, f, inl g) = (rule, f, inl g)
  Quiet-kept system_rule now x y db (rule, f, inr (ratio, g, valid, inl soft)) =
      (rule, f, inr (ratio, g, valid, inl soft))
  Quiet-kept system_rule now x y db (rule, f, inr (ratio, g, valid, inr seen)) = (
    rule,
    f,
    inr (
      ratio,
      g,
      valid,
      inr (
          evaluate_one-known dc dr sig c users x.target_type x.target.id system_rule now y db seen),
    ),
  )

  -- How a pass that succeeds begins.
  pass_cons :
      (rule : StorageAlertRule) (now : ℕ) (x : Subject) (xs : List Subject) (db : Tables)
      (ids : List ℕ)
      → (evaluate_each dc dr sig c users rule now (x ∷ xs) db).0 ≡ ok ids
      → let after = (evaluate_one dc dr sig c users rule now x db).1 in
        (id : Option ℕ) × (rest : List ℕ) × ((evaluate_one dc dr sig c users rule now x db).0
          ≡ ok id)
        × ((evaluate_each dc dr sig c users rule now xs after).0 ≡ ok rest)
        × ((evaluate_each dc dr sig c users rule now (x ∷ xs) db).1
            ≡ (evaluate_each dc dr sig c users rule now xs after).1)
  unfolding evaluate_each
  pass_cons rule now x xs db ids h =
      let (id, rest, f, g, same, after) =
        and_then-ok (evaluate_one dc dr sig c users rule now x db)
          (evaluate_each dc dr sig c users rule now xs) ids h in
      (id, rest, f, g, after)

  Quiet-pass :
      (rule : StorageAlertRule) (now : ℕ) (x : Subject) (xs : List Subject) (db : Tables)
      (ids : List ℕ)
      → (evaluate_each dc dr sig c users rule now xs db).0 ≡ ok ids
      → Quiet rule now x db.states
      → Quiet rule now x (evaluate_each dc dr sig c users rule now xs db).1.states
  unfolding evaluate_each
  Quiet-pass rule now x [] db ids h q = q
  Quiet-pass rule now x (y ∷ xs) db ids h q =
      let (id, rest, f, g, same) = pass_cons rule now y xs db ids h in
      subst (λ (t : Tables). Quiet rule now x t.states) (sym same)
        (Quiet-pass rule now x xs (evaluate_one dc dr sig c users rule now y db).1 rest g
          (Quiet-kept rule now x y db q))

  evaluate_each-Quiet :
      (rule : StorageAlertRule) (now : ℕ) (xs : List Subject) (db : Tables) (ids : List ℕ)
      → (evaluate_each dc dr sig c users rule now xs db).0 ≡ ok ids
      → All
          (λ (x : Subject).
            Quiet rule now x (evaluate_each dc dr sig c users rule now xs db).1.states)
          xs
  unfolding evaluate_each
  evaluate_each-Quiet rule now [] db ids h = tt
  evaluate_each-Quiet rule now (x ∷ xs) db ids h =
      let (id, rest, f, g, same) = pass_cons rule now x xs db ids h in
      let after = (evaluate_one dc dr sig c users rule now x db).1 in
      subst (λ (t : Tables). All (λ (z : Subject). Quiet rule now z t.states) (x ∷ xs)) (sym same)
        (
          Quiet-pass rule now x xs after rest g (evaluate_one-Quiet rule now x db id f),
          evaluate_each-Quiet rule now xs after rest g,
        )

  Quiet-evaluate_each :
      (rule : StorageAlertRule) (now : ℕ) (xs : List Subject) (db : Tables)
      → All (λ (x : Subject). Quiet rule now x db.states) xs
      → evaluate_each dc dr sig c users rule now xs db ≡ (ok [], db)
  unfolding evaluate_each
  Quiet-evaluate_each rule now [] db q = refl
  Quiet-evaluate_each rule now (x ∷ xs) db q =
      let rest = evaluate_each dc dr sig c users rule now xs in
      ap (λ p. and_then p rest) (Quiet-evaluate_one rule now x db q.0)
      ∙ ap (append_to none) (Quiet-evaluate_each rule now xs db q.1)

  -- A pass that does not raise and is run again on the same sample adds no alert, returns no id and leaves
  -- every state as it is.
  pub evaluate_storage_alerts_again :
      (rival : TargetType → ℕ → Option AlertState) (order_by_name : List String → List String)
      (w : Resources) (r : Refreshed) (now : ℕ) (db db' : Tables) (ids : List ℕ)
      → evaluate_storage_alerts dc dr sig c users rival order_by_name w r now db ≡ (ok ids, db')
      → evaluate_storage_alerts dc dr sig c users rival order_by_name w r now db' ≡ (ok [], db')
  unfolding evaluate_storage_alerts
  evaluate_storage_alerts_again rival order_by_name w r now db db' ids h =
      let rule : StorageAlertRule = system_rule_of w.system_rule in
      let xs : List Subject = subjects rival order_by_name w r now in
      let first = evaluate_each dc dr sig c users rule now xs db in
      elim (Result-cases first.0) [
        | inl (e, f) ↦ absurd (committed-err db first e ids db' f h)
        | inr (ids', f) ↦
            let (same, after) = committed-ok db first ids' ids db' f h in
            let quiet : All (λ (x : Subject). Quiet rule now x db'.states) xs =
              subst (λ (t : Tables). All (λ (x : Subject). Quiet rule now x t.states) xs) after
                (evaluate_each-Quiet rule now xs db ids' f) in
            ap (in_transaction db') (Quiet-evaluate_each rule now xs db' quiet)
      ]
