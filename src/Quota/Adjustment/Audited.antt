-- ===== src/Quota/Adjustment/Audited.antt =====
-- The audit trail of an adjustment whose commits all work.
use disk_pulse.Prelude.{
  String, ◌≡◌, ◌↔◌, ◌⊎◌, inl, inr, refl, sym, ap, ◌∙◌, Bool, true, false, Option, none, some, [],
  ◌∷◌, ◌++◌,
}
use disk_pulse.Prelude.Exec.{Result, ok, err, type_error, Error, lift, continue}
use disk_pulse.Alerts.Delivery.{StorageAlert}
use disk_pulse.Quota.Rows.{
  World, QuotaAudit, attempt, result, success, failure, quota_adjust, Source, append_and_commit,
  commit_checkpoint, append_audit_event,
}
use disk_pulse.Quota.Adjustment.{
  Environment, Job, Response, adjusted, native, execute_adjustment_locked, command, after_write,
  written, confirmed, settle, finish, fail_with, audit_row, enqueue, send_adjustment_email,
  sync_local_quota, record_adjustment, WriteOutcome, DeviceResult, DeviceLimits, soft_of,
  QuotaAdjustmentResponse,
}
use disk_pulse.Quota.Adjustment.Endings.{
  IsFailure, Ends, fails, escapes, confirms, after_write-Ends,
}

abbrev pub IsAdjusted : Result Response → Type 0
IsAdjusted (ok (adjusted _)) = Unit
IsAdjusted _ = ⊥

pub record CommitsWork (env : Environment) (job : Job) : Type 0 where
  pub audited : job.audited ≡ true
  pub attempt_commit : env.attempt_commit ≡ none
  pub failure_commit : env.failure_commit ≡ none
  pub result_commit : env.result_commit ≡ none

-- One more row stands in the trail of the database.
record Logs (w : World) (row : QuotaAudit) (v : World) : Type 0 where
  durable : v.durable.audits ≡ w.session.audits ++ row ∷ []
  session : v.session.audits ≡ w.session.audits ++ row ∷ []

append_and_commit-Logs :
    (audited : Bool) (raises : Option Error) (row : QuotaAudit) (w : World)
    → audited ≡ true
    → raises ≡ none
    → (append_and_commit audited raises row w).0 ≡ ok tt
      × Logs w row (append_and_commit audited raises row w).1
unfolding append_and_commit append_audit_event commit_checkpoint
append_and_commit-Logs true none row w a r = (refl, record { durable = refl; session = refl })
append_and_commit-Logs false raises row w a r = cc
append_and_commit-Logs true (some e) row w a r = cc

-- The last row of the trail, and what it says.
pub record Reports (w : World) (answer : Result Response) (v : World) : Type 0 where
  pub row : QuotaAudit
  pub durable : v.durable.audits ≡ w.session.audits ++ row ∷ []
  pub phase : row.phase ≡ result
  pub outcome : (row.outcome ≡ success) ↔ IsAdjusted answer

settle-Reports :
    (raises : Option Error) (env : Environment) (job : Job) (d : DeviceLimits) (source : Source)
    (alert : StorageAlert) (response : QuotaAdjustmentResponse) (w : World)
    → job.audited ≡ true
    → raises ≡ none
    → let (answer, v) =
        settle raises env w.session.resource alert response (finish env job d source w) in
      Reports w answer v
unfolding settle finish sync_local_quota append_audit_event enqueue send_adjustment_email
    commit_checkpoint audit_row
settle-Reports none env job d source alert response w a r = record {
  row =
      audit_row quota_adjust result success w.session.resource
        (some (job.old_hard_limit, job.old_soft_limit))
        (some (some d.hard_limit, soft_of d.soft_limit)) (some source);
  durable = rw a refl;
  phase = refl;
  outcome = (λ h. tt, λ h. refl);
}
settle-Reports (some e) env job d source alert response w a r = cc

failure_lem : (answer : Result Response) → IsFailure answer → IsAdjusted answer → ⊥
failure_lem (err _) f h = h
failure_lem (ok (native _)) f h = h
failure_lem (ok (adjusted _)) f h = f

clash : {reason : String} → failure reason ≡ success → ⊥
clash h = cc

continue-Reports :
    (w : World) (row : QuotaAudit) (x : Result (Unit {0}) × World) (answer : Result Response)
    → x.0 ≡ ok tt
    → Logs w row x.1
    → row.phase ≡ result
    → (reason : String) → row.outcome ≡ failure reason
    → IsFailure answer
    → Reports w (continue x.0 (λ _. lift answer) x.1).0 (continue x.0 (λ _. lift answer) x.1).1
continue-Reports w row (err e, v) answer h l p reason o f = cc
continue-Reports w row (ok _, v) answer h l p reason o f = record {
  row = row;
  durable = l.durable;
  phase = p;
  outcome = (λ h. elim (clash (sym o ∙ h)) [ ], λ h. elim (failure_lem answer f h) [ ]);
}

-- The device's answer to the write has no hard limit, and nothing more happened than the exception.
pub record Escapes (w : World) (o : WriteOutcome) (answer : Result Response) (v : World)
    : Type 0 where
  pub device : DeviceResult
  pub wrote : o ≡ written device
  pub missing : device.hard_limit ≡ none
  pub raised : answer ≡ err type_error
  pub same : v ≡ w

after_write-Reports :
    (env : Environment) (job : Job) (o : WriteOutcome) (w : World)
    → CommitsWork env job
    → (x : Result Response × World) → Ends env job w o x
    → Reports w x.0 x.1 ⊎ Escapes w o x.0 x.1
unfolding confirmed fail_with audit_row
after_write-Reports env job o w c _ (fails reason answer f) =
    let (done, logs) =
      append_and_commit-Logs job.audited env.failure_commit _ w c.audited c.failure_commit in
    inl (
      continue-Reports w _ (append_and_commit job.audited env.failure_commit _ w) answer done logs
        refl reason refl f)
after_write-Reports env job o w c _ (escapes {d = d} e) =
    inr (record { device = d; wrote = refl; missing = e; raised = refl; same = refl })
after_write-Reports env job o w c _ (confirms {d = d} {source} k) = inl (
    settle-Reports env.result_commit env job d source
      (record_adjustment env w.session.resource job.old_hard_limit job.old_soft_limit
        (some d.hard_limit) (soft_of d.soft_limit))
      _ w c.audited c.result_commit)

-- Both rows of an adjustment.
pub record Trail (w : World) (answer : Result Response) (v : World) : Type 0 where
  pub first : QuotaAudit
  pub last : QuotaAudit
  pub durable : v.durable.audits ≡ (w.session.audits ++ first ∷ []) ++ last ∷ []
  pub first_phase : first.phase ≡ attempt
  pub last_phase : last.phase ≡ result
  pub outcome : (last.outcome ≡ success) ↔ IsAdjusted answer

-- The attempt alone, behind a write that the device answered without a hard limit.
pub record LoneAttempt (w : World) (o : WriteOutcome) (answer : Result Response) (v : World)
    : Type 0 where
  pub first : QuotaAudit
  pub durable : v.durable.audits ≡ w.session.audits ++ first ∷ []
  pub first_phase : first.phase ≡ attempt
  pub device : DeviceResult
  pub wrote : o ≡ written device
  pub missing : device.hard_limit ≡ none
  pub raised : answer ≡ err type_error

ends-Trail :
    (w u : World) (o : WriteOutcome) (row : QuotaAudit) (y : Result Response × World)
    → Logs w row u
    → row.phase ≡ attempt
    → Reports u y.0 y.1 ⊎ Escapes u o y.0 y.1
    → Trail w y.0 y.1 ⊎ LoneAttempt w o y.0 y.1
ends-Trail w u o row y l p (inl r) = inl (record {
  first = row;
  last = r.row;
  durable = r.durable ∙ ap (λ xs. xs ++ r.row ∷ []) l.session;
  first_phase = p;
  last_phase = r.phase;
  outcome = r.outcome;
})
ends-Trail w u o row y l p (inr e) = inr (record {
  first = row;
  durable = ap (λ v. v.durable.audits) e.same ∙ l.durable;
  first_phase = p;
  device = e.device;
  wrote = e.wrote;
  missing = e.missing;
  raised = e.raised;
})

continue-Trail :
    (w : World) (o : WriteOutcome) (row : QuotaAudit) (x : Result (Unit {0}) × World)
    (f : World → Result Response × World)
    → x.0 ≡ ok tt
    → Logs w row x.1
    → row.phase ≡ attempt
    → ((u : World) → Reports u (f u).0 (f u).1 ⊎ Escapes u o (f u).0 (f u).1)
    → Trail w (continue x.0 (λ _. f) x.1).0 (continue x.0 (λ _. f) x.1).1
      ⊎ LoneAttempt w o (continue x.0 (λ _. f) x.1).0 (continue x.0 (λ _. f) x.1).1
continue-Trail w o row (err e, u) f h l p r = cc
continue-Trail w o row (ok _, u) f h l p r = ends-Trail w u o row (f u) l p (r u)

-- Where an adjustment is audited and the commits work, it leaves two rows in the audit trail of the
-- database behind those of the session: the attempt, and one result, which says success exactly if new
-- limits are returned. There is one exception: where the device answers the write without a hard limit,
-- the attempt is the only row, and a type error is raised.
pub execute_adjustment_locked-Trail :
    (env : Environment) (job : Job) (w : World)
    → CommitsWork env job
    → let (answer, v) = execute_adjustment_locked env job w in
      Trail w answer v
      ⊎ LoneAttempt w (env.write (command w.session.resource w.session.target job)) answer v
unfolding execute_adjustment_locked audit_row
execute_adjustment_locked-Trail env job w c =
    let (done, logs) =
      append_and_commit-Logs job.audited env.attempt_commit _ w c.audited c.attempt_commit in
    let o = env.write (command w.session.resource w.session.target job) in
    continue-Trail w o _ (append_and_commit job.audited env.attempt_commit _ w)
      (after_write env job o) done logs refl
      (λ u. after_write-Reports env job o u c _ (after_write-Ends env job o u))
