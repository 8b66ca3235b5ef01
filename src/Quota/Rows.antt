-- ===== src/Quota/Rows.antt =====
-- The rows that one adjustment of backend/services/quotaService.py reads and writes, as the session has
-- them and as the database has them, and the checkpoints of backend/router_transaction.py. Limits are
-- numbers of bytes here, where the tables have GiB, and a ratio is in hundredths of a percent.
use disk_pulse.Prelude.{
  ℕ, ◌+◌, ◌*◌, ◌/◌, String, Bool, true, false, Option, none, some, List, [], ◌∷◌, ◌++◌,
  if◌then◌else◌, ◌==◌,
}
use disk_pulse.Prelude.Exec.{ok, err, Error, Exec}
use disk_pulse.Alerts.Delivery.{StorageAlert}
use disk_pulse.Quota.Request.{ResourceType, TargetType}

pub record Limits : Type 0 where
  pub limit : Option ℕ
  pub soft_limit : Option ℕ
  pub used : Option ℕ
  pub use_ratio : Option ℕ
  pub soft_use_ratio : Option ℕ

-- A project group or a user's directory, with what the code reads through its relations: the project,
-- and the name in the device's domain and the address of its user (of the group: the user in charge).
pub record Resource : Type 0 where
  pub resource_type : ResourceType
  pub id : ℕ
  pub project_id : ℕ
  pub name : String
  pub linux_path : Option String
  pub rd_username : Option String
  pub email : Option String
  pub limits : Limits

-- A volume or a qtree.
pub record Target : Type 0 where
  pub target_type : TargetType
  pub id : ℕ
  pub name : String
  pub limits : Limits

pub data Phase : Type 0 where
  attempt result : Phase

pub data Outcome : Type 0 where
  success : Outcome
  failure : String → Outcome

pub data Source : Type 0 where
  post_write_readback post_timeout_readback manual_reconciliation : Source

pub data Action : Type 0 where
  quota_adjust quota_reconcile : Action

-- An audit row, and the limits that its summaries name.
pub record QuotaAudit : Type 0 where
  pub phase : Phase
  pub action : Action
  pub resource_type : ResourceType
  pub resource_id : ℕ
  pub project_id : ℕ
  pub outcome : Outcome
  pub before : Option (Option ℕ × Option ℕ)
  pub after : Option (Option ℕ × Option ℕ)
  pub verification_source : Option Source

pub record Rows : Type 0 where
  pub resource : Resource
  pub target : Target
  pub audits : List QuotaAudit
  pub alerts : List StorageAlert

-- The session, the database behind it, and what was handed to the task queue and to the mail server.
pub record World : Type 0 where
  pub session : Rows
  pub durable : Rows
  pub queue : List ℕ
  pub mails : List (List String)

-- `db.commit()`, with the exception that it raises, if any.
unfoldable pub commit_checkpoint : Option Error → Exec World (Unit {0})
commit_checkpoint none w = (ok tt, record w { durable = w.session })
commit_checkpoint (some e) w = (err e, w)

unfoldable pub rollback_checkpoint : World → World
rollback_checkpoint w = record w { session = w.durable }

-- `append_audit_event`, which adds the row to the session, where the code has an audit context.
unfoldable pub append_audit_event : Bool → QuotaAudit → World → World
append_audit_event audited row w = record w {
  session = record w.session {
    audits = if audited then w.session.audits ++ row ∷ [] else w.session.audits;
  };
}

-- `if audit_context is not None: append_audit_event(...); commit_checkpoint(db)`
unfoldable pub append_and_commit : Bool → Option Error → QuotaAudit → Exec World (Unit {0})
unfolding append_audit_event commit_checkpoint
append_and_commit false raises row w = (ok tt, w)
append_and_commit true raises row w = commit_checkpoint raises (append_audit_event true row w)

-- `round((used or 0) * 100 / limit, 2) if limit else None`
unfoldable pub ratio : Option ℕ → Option ℕ → Option ℕ
ratio used none = none
ratio used (some limit) =
    if limit == 0
    then none
    else some ((elim used [ none ↦ 0 | some u ↦ u ] * 20_000 + limit) / (limit * 2))
