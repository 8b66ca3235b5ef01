-- ===== src/Quota/Adjustment/Results.antt =====
-- What an adjustment leaves behind on each of its branches.
use disk_pulse.Prelude.{
  String, ◌≡◌, refl, Bool, true, false, Option, none, some, [], ◌∷◌, ◌++◌, if◌then◌else◌, sym, ◌∙◌,
}
use disk_pulse.Prelude.Exec.{Result, ok, err, Error, continue, lift}
use disk_pulse.Quota.Rows.{
  quota_adjust, Action, QuotaAudit, append_and_commit, commit_checkpoint, append_audit_event,
  rollback_checkpoint, World, Source,
}
use disk_pulse.Quota.Adjustment.{
  Environment, Job, record_adjustment, addresses, result_from_device, is_group, Response, adjusted,
  native, DeviceLimits, soft_of, with_limits, execute_adjustment_locked, command, after_write,
  confirmed, settle, finish, fail_with, WriteOutcome, sync_local_quota, send_adjustment_email,
  enqueue,
}
use disk_pulse.Quota.Adjustment.Endings.{
  Confirms, IsFailure, Ends, fails, escapes, confirms, continue-lift, after_write-Ends,
}

-- The tables of the database other than the audit trail, and what was sent.
pub record SameTables (w v : World) : Type 0 where
  pub resource : w.durable.resource ≡ v.durable.resource
  pub target : w.durable.target ≡ v.durable.target
  pub alerts : w.durable.alerts ≡ v.durable.alerts
  pub queue : w.queue ≡ v.queue
  pub mails : w.mails ≡ v.mails

-- The session has no change that the database does not have, the audit trail aside.
pub record IsClean (w : World) : Type 0 where
  pub resource : w.session.resource ≡ w.durable.resource
  pub target : w.session.target ≡ w.durable.target
  pub alerts : w.session.alerts ≡ w.durable.alerts

-- The limits that the device confirmed are those of the row, and of its target for a group, and one
-- alert and one message tell of them.
pub record Takes (env : Environment) (job : Job) (d : DeviceLimits) (w v : World) : Type 0 where
  pub resource :
      v.durable.resource
      ≡ record w.session.resource { limits = with_limits d w.session.resource.limits }
  pub target : v.durable.target ≡ (
      if is_group w.session.resource.resource_type
      then record w.session.target { limits = with_limits d w.session.target.limits }
      else w.session.target)
  pub alerts :
      v.durable.alerts
      ≡ w.session.alerts
        ++ record_adjustment env w.session.resource job.old_hard_limit job.old_soft_limit
            (some d.hard_limit)
            (soft_of d.soft_limit)
          ∷ []
  pub mails : v.mails ≡ w.mails ++ addresses w.session.resource.email ∷ []
  pub session : v.session ≡ v.durable

-- What the tables are behind a result.
abbrev pub Leaves : Environment → Job → World → WriteOutcome → Result Response → World → Type 0
Leaves env job w o (ok (adjusted response)) v =
    (d : DeviceLimits) × (source : Source) × Confirms env job o d source
    × Takes env job d w v
    × (response ≡ result_from_device w.session.resource job.storage_type d job.operation_id source)
Leaves env job w o _ v = SameTables w v

SameTables-refl : (w : World) → SameTables w w
SameTables-refl w = record {
  resource = refl;
  target = refl;
  alerts = refl;
  queue = refl;
  mails = refl;
}

-- A step that writes to the audit trail at most.
record Records (w v : World) : Type 0 where
  same_tables : SameTables w v
  clean : IsClean v
  same_resource : v.session.resource ≡ w.session.resource
  same_target : v.session.target ≡ w.session.target
  same_alerts : v.session.alerts ≡ w.session.alerts
  same_mails : v.mails ≡ w.mails

append_and_commit-Records :
    (audited : Bool) (raises : Option Error) (row : QuotaAudit) (w : World)
    → IsClean w
    → Records w (append_and_commit audited raises row w).1
unfolding append_and_commit commit_checkpoint append_audit_event
append_and_commit-Records false raises row w c = record {
  same_tables = SameTables-refl w;
  clean = c;
  same_resource = refl;
  same_target = refl;
  same_alerts = refl;
  same_mails = refl;
}
append_and_commit-Records true none row w c = record {
  same_tables = record {
    resource = sym c.resource;
    target = sym c.target;
    alerts = sym c.alerts;
    queue = refl;
    mails = refl;
  };
  clean = record { resource = refl; target = refl; alerts = refl };
  same_resource = refl;
  same_target = refl;
  same_alerts = refl;
  same_mails = refl;
}
append_and_commit-Records true (some e) row w c = record {
  same_tables = record {
    resource = refl;
    target = refl;
    alerts = refl;
    queue = refl;
    mails = refl;
  };
  clean = record { resource = c.resource; target = c.target; alerts = c.alerts };
  same_resource = refl;
  same_target = refl;
  same_alerts = refl;
  same_mails = refl;
}

continue-IsFailure :
    {S A : Type 0} (r : Result A × S) (b : Result Response)
    → IsFailure b
    → IsFailure (continue r.0 (λ _. lift b) r.1).0
continue-IsFailure (ok a, s) b f = f
continue-IsFailure (err e, s) b f = tt

fail_with-Records :
    (env : Environment) (job : Job) (action : Action) (reason : String) (answer : Result Response)
    (w : World)
    → IsClean w
    → Records w (fail_with env job action reason answer w).1
unfolding fail_with
fail_with-Records env job action reason answer w c =
    rw (continue-lift (append_and_commit job.audited env.failure_commit _ w) answer)
      (append_and_commit-Records job.audited env.failure_commit _ w c)

settle-Leaves :
    (raises : Option Error) (env : Environment) (job : Job) (o : WriteOutcome) (d : DeviceLimits)
    (source : Source) (w : World)
    → Confirms env job o d source
    → IsClean w
    → let alert =
        record_adjustment env w.session.resource job.old_hard_limit job.old_soft_limit
          (some d.hard_limit)
          (soft_of d.soft_limit) in
      let response =
        result_from_device w.session.resource job.storage_type d job.operation_id source in
      let (answer, v) =
        settle raises env w.session.resource alert response (finish env job d source w) in
      Leaves env job w o answer v
unfolding settle send_adjustment_email enqueue commit_checkpoint rollback_checkpoint finish
    sync_local_quota append_audit_event
settle-Leaves none env job o d source w k c = (
  d,
  source,
  k,
  record { resource = refl; target = refl; alerts = refl; mails = refl; session = refl },
  refl,
)
settle-Leaves (some e) env job o d source w k c = record {
  resource = refl;
  target = refl;
  alerts = refl;
  queue = refl;
  mails = refl;
}

failure-Leaves :
    (env : Environment) (job : Job) (o : WriteOutcome) (w : World) (x : Result Response × World)
    → IsFailure x.0
    → SameTables w x.1
    → Leaves env job w o x.0 x.1
failure-Leaves env job o w (err e, v) f s = s
failure-Leaves env job o w (ok (native n), v) f s = s
failure-Leaves env job o w (ok (adjusted _), v) f s = elim f [ ]

SameTables-trans : {u v w : World} → SameTables u v → SameTables v w → SameTables u w
SameTables-trans p q = record {
  resource = p.resource ∙ q.resource;
  target = p.target ∙ q.target;
  alerts = p.alerts ∙ q.alerts;
  queue = p.queue ∙ q.queue;
  mails = p.mails ∙ q.mails;
}

-- A step before that writes to the audit trail at most does not show.
Records-Leaves :
    (env : Environment) (job : Job) (o : WriteOutcome) (u w : World) (x : Result Response × World)
    → Records u w
    → Leaves env job w o x.0 x.1
    → Leaves env job u o x.0 x.1
Records-Leaves env job o u w (err e, v) r l = SameTables-trans r.same_tables l
Records-Leaves env job o u w (ok (native n), v) r l = SameTables-trans r.same_tables l
Records-Leaves env job o u w (ok (adjusted response), v) r (d, source, k, t, e) = (
  d,
  source,
  k,
  record {
    resource = rw (← r.same_resource) t.resource;
    target = rw (← r.same_resource, ← r.same_target) t.target;
    alerts = rw (← r.same_resource, ← r.same_alerts) t.alerts;
    mails = rw (← r.same_resource, ← r.same_mails) t.mails;
    session = t.session;
  },
  rw (← r.same_resource) e,
)

continue-Leaves :
    (env : Environment) (job : Job) (o : WriteOutcome) (w : World) (r : Result (Unit {0}) × World)
    (f : World → Result Response × World)
    → Records w r.1
    → ((u : World) → IsClean u → Leaves env job u o (f u).0 (f u).1)
    → Leaves env job w o (continue r.0 (λ _. f) r.1).0 (continue r.0 (λ _. f) r.1).1
continue-Leaves env job o w (ok _, u) f r h = Records-Leaves env job o w u (f u) r (h u r.clean)
continue-Leaves env job o w (err e, u) f r h = r.same_tables

after_write-Leaves :
    (env : Environment) (job : Job) (o : WriteOutcome) (w : World)
    → IsClean w
    → (x : Result Response × World) → Ends env job w o x
    → Leaves env job w o x.0 x.1
unfolding confirmed fail_with
after_write-Leaves env job o w c _ (fails reason answer f) =
    failure-Leaves env job o w _
      (continue-IsFailure (append_and_commit job.audited env.failure_commit _ w) answer f)
      (fail_with-Records env job quota_adjust reason answer w c).same_tables
after_write-Leaves env job o w c _ (escapes e) = SameTables-refl w
after_write-Leaves env job o w c _ (confirms {d = d} {source} k) =
    settle-Leaves env.result_commit env job o d source w k c

-- Whatever the device answers, and whichever commit fails, an adjustment leaves either the rows of the
-- database, apart from its audit trail, as they were, with nothing queued and nothing mailed; or, exactly
-- when it returns new limits, limits that the device confirmed, in an answer to the write or, behind a
-- timeout, in a read that shows what was asked for: they are in the rows and in the response.
pub execute_adjustment_locked-Leaves :
    (env : Environment) (job : Job) (w : World)
    → IsClean w
    → let (answer, v) = execute_adjustment_locked env job w in
      Leaves env job w (env.write (command w.session.resource w.session.target job)) answer v
unfolding execute_adjustment_locked
execute_adjustment_locked-Leaves env job w c =
    let o = env.write (command w.session.resource w.session.target job) in
    continue-Leaves env job o w (append_and_commit job.audited env.attempt_commit _ w)
      (after_write env job o) (append_and_commit-Records job.audited env.attempt_commit _ w c)
      (λ u k. after_write-Leaves env job o u k _ (after_write-Ends env job o u))
