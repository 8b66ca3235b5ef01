-- ===== src/Alerts/Evaluation.antt =====
-- The evaluation of one target: `_usernames_for_ids`, `_effective_rule` and `_evaluate_one` of
-- backend/celery_tasks/tasks/storage_alerts.py. The message of an alert is in Alerts.Evaluation.Notice.
-- The row that another transaction commits for the target, after it was not found and before it is
-- inserted, is an argument.
pub mod Examples
pub mod Notice
pub mod Pass
use disk_pulse.Prelude.{
  ℕ, zero, ◌+◌, String, Bool, true, false, not, ◌&&◌, Option, none, some, List, [], ◌∷◌, ◌++◌, ltb,
  ◌==◌, if◌then◌else◌, find, map, update_where,
}
use disk_pulse.Prelude.Exec.{Error, Result, ok, err}
use disk_pulse.Prelude.Time.{Instant}
use disk_pulse.Access.Db.{User}
use disk_pulse.Alerts.Rule.{
  QuotaBasis, hard, soft, StorageAlertRule, ResolvedRule, TargetType, storage_usage, group, project,
  resolve_storage_alert_rule, Level, important, emergency, level_rule,
}
use disk_pulse.Alerts.Transition.{
  AlertState, EventType, trigger, escalation, repeat, recovery, TransitionResult, Sample,
  transition_alert_state,
}
use disk_pulse.Alerts.Recipients.{resolve_recipient_usernames}
use disk_pulse.Alerts.Delivery.{StorageAlert, RelatedInfo, pending, skipped}
use Notice.{Target, Context, paragraphs}

-- A row of `storage_alert_states`.
pub record StateRow : Type 0 where
  pub target_type : TargetType
  pub target_id : ℕ
  pub state : AlertState

-- A row of `storage_alerts`: the columns of the delivery, and those that tell what it is about. The
-- fingerprint is made of the target and the time.
pub record AlertRow : Type 0 where
  pub delivery : StorageAlert
  pub target_type : TargetType
  pub related_id : ℕ
  pub observed_at : Instant
  pub alert_level : Option Level
  pub threshold : ℕ
  pub avg_use_ratio : ℕ
  pub event_type : EventType
  pub quota_basis : QuotaBasis

pub record Tables : Type 0 where
  pub states : List StateRow
  pub alerts : List AlertRow
  -- the next value of the primary key's sequence
  pub next_alert_id : ℕ

-- The configuration of the notifications.
pub record Settings : Type 0 where
  pub cc_usernames : List (Option String)
  pub debug : Bool
  pub super_admin_usernames : List (Option String)

-- The arguments of `_evaluate_one` about a target. The users that a group copies are ids.
pub record Subject : Type 0 where
  pub target_type : TargetType
  pub target : Target
  pub project_rule : Option StorageAlertRule
  pub group_rule : Option StorageAlertRule
  pub alert_cc_user_ids : List ℕ
  pub primary_usernames : List (Option String)
  pub context : Context
  pub rival : Option AlertState

abbrev pub same_target : TargetType → TargetType → Bool
same_target storage_usage storage_usage = true
same_target group group = true
same_target project project = true
same_target _ _ = false

abbrev pub is_state : TargetType → ℕ → StateRow → Bool
is_state t n r = same_target t r.target_type && r.target_id == n

abbrev state_of : Option StateRow → Option AlertState
state_of none = none
state_of (some r) = some r.state

unfoldable pub find_state : TargetType → ℕ → List StateRow → Option AlertState
find_state t n rows = state_of (find (is_state t n) rows)

-- `by_id.get(user_id)`
abbrev name_of : Option User → Option String
name_of none = none
name_of (some u) = u.rd_username

unfoldable pub usernames_for_ids : List User → List ℕ → List (Option String)
usernames_for_ids users ids = map (λ n. name_of (find (λ (u : User). u.id == n) users)) ids

unfoldable pub effective_rule : StorageAlertRule → Subject → Result StorageAlertRule
effective_rule system_rule x =
    elim (resolve_storage_alert_rule x.target_type system_rule x.project_rule x.group_rule) [
      | err e ↦ err e
      | ok r ↦ ok r.rule
    ]

-- `target.use_ratio if basis == "hard" else target.soft_use_ratio`
unfoldable pub ratio_of : QuotaBasis → Target → Option ℕ
ratio_of hard target = target.use_ratio
ratio_of soft target = target.soft_use_ratio

-- `target.soft_limit is not None and target.soft_limit > 0`
abbrev pub has_soft_limit : Option ℕ → Bool
has_soft_limit none = false
has_soft_limit (some limit) = ltb 0 limit

abbrev pub sample_of : Target → ℕ → Instant → Sample
sample_of target ratio now = record {
  use_ratio = ratio;
  observed_at = now;
  soft_limit_available = has_soft_limit target.soft_limit;
}

abbrev is_emergency : Option Level → Bool
is_emergency (some emergency) = true
is_emergency _ = false

-- `group_cc if target_type in {"storage_usage", "group"} else []`
abbrev group_copies : TargetType → List (Option String) → List (Option String)
group_copies project names = []
group_copies _ names = names

-- The recipients of an event: nobody is told of a recovery.
unfoldable pub recipients_of :
    Settings → List User → Subject → Option Level → EventType → List String
unfolding usernames_for_ids
recipients_of c users x level recovery = []
recipients_of c users x level _ =
    resolve_recipient_usernames x.primary_usernames
      (group_copies x.target_type (usernames_for_ids users x.alert_cc_user_ids)) c.cc_usernames
      c.super_admin_usernames c.debug (is_emergency level)

abbrev is_empty : List String → Bool
is_empty [] = true
is_empty (_ ∷ _) = false

abbrev or_previous : Option Level → Option Level → Option Level
or_previous (some l) previous = some l
or_previous none previous = previous

abbrev threshold_of : StorageAlertRule → Option Level → ℕ
threshold_of rule none = rule.important.threshold
threshold_of rule (some l) = (level_rule rule l).threshold

-- The fields of a state are written to the row of the target.
unfoldable pub write_state : TargetType → ℕ → AlertState → List StateRow → List StateRow
write_state t n state rows =
    update_where (is_state t n) (λ (r : StateRow). record r { state = state }) rows

-- `begin_nested` and a flush of a new row.
abbrev pub insert_state : TargetType → ℕ → AlertState → List StateRow → List StateRow
insert_state t n state rows = rows ++ record { target_type = t; target_id = n; state = state } ∷ []

module _ (display_capacity : Option ℕ → String) (display_ratio : ℕ → String) where
  unfoldable pub alert_row :
      Subject
      → StorageAlertRule
      → ℕ
      → Instant
      → TransitionResult
      → EventType
      → List String
      → ℕ
      → AlertRow
  alert_row x rule ratio now r e recipients id = record {
    delivery = record {
      id = id;
      related_info = some (record {
        title = some (elim e [ recovery ↦ "存储恢复通知" | _ ↦ "存储容量告警" ]);
        paragraphs =
            some
              (paragraphs display_capacity display_ratio x.target rule x.context r.previous_level);
      });
      delivery_status = if is_empty recipients then skipped else pending;
      recipient_usernames = recipients;
      delivery_attempts = 0;
      next_attempt_at = if is_empty recipients then none else some now;
      notified_at = none;
      delivery_error = none;
    };
    target_type = x.target_type;
    related_id = x.target.id;
    observed_at = now;
    alert_level = or_previous r.level r.previous_level;
    threshold = threshold_of rule r.level;
    avg_use_ratio = ratio;
    event_type = e;
    quota_basis = rule.quota_basis;
  }

  -- `db.add(alert)` and a flush. The id is returned where somebody is to be told.
  unfoldable pub emit :
      Settings
      → List User
      → Subject
      → StorageAlertRule
      → ℕ
      → Instant
      → TransitionResult
      → Option EventType
      → Tables
      → Option ℕ × Tables
  unfolding alert_row
  emit c users x rule ratio now r none db = (none, db)
  emit c users x rule ratio now r (some e) db =
      let recipients = recipients_of c users x r.level e in
      (
        if is_empty recipients then none else some db.next_alert_id,
        record db {
          alerts = db.alerts ++ alert_row x rule ratio now r e recipients db.next_alert_id ∷ [];
          next_alert_id = db.next_alert_id + 1;
        },
      )

  module _ (signature_of : StorageAlertRule → String) (c : Settings) (users : List User) where
    -- A result that is not skipped has a state, which goes to the row of the target.
    unfoldable pub write_result :
        Subject
        → StorageAlertRule
        → ℕ
        → Instant
        → (AlertState → List StateRow → List StateRow)
        → TransitionResult
        → Tables
        → Option ℕ × Tables
    unfolding emit
    write_result x rule ratio now put r db = elim r.state [
      | none ↦ (none, db)
      | some state ↦
          if r.skipped
          then (none, db)
          else emit c users x rule ratio now r r.event_type
              (record db { states = put state db.states })
    ]

    -- The row is there: the sample is compared with it.
    unfoldable pub against_row :
        Subject → StorageAlertRule → ℕ → Sample → AlertState → Tables → Result (Option ℕ) × Tables
    unfolding write_result write_state
    against_row x rule ratio sample state db =
        elim (transition_alert_state signature_of (some state) rule sample) [
          | err e ↦ (err e, db)
          | ok r ↦
              let (id, db') =
                write_result x rule ratio sample.observed_at (write_state x.target_type x.target.id)
                  r db in
              (ok id, db')
        ]

    -- There is no row: one is inserted, unless another transaction did so.
    unfoldable pub without_row :
        Subject
        → StorageAlertRule
        → ℕ
        → Sample
        → Option AlertState
        → Tables
        → Result (Option ℕ) × Tables
    unfolding against_row
    without_row x rule ratio sample rival db =
        elim (transition_alert_state signature_of none rule sample) [
          | err e ↦ (err e, db)
          | ok r ↦ if r.skipped then (ok none, db) else elim rival [
            | some other ↦
                against_row x rule ratio sample other
                  (record db { states = insert_state x.target_type x.target.id other db.states })
            | none ↦
                let (id, db') =
                  write_result x rule ratio sample.observed_at
                    (insert_state x.target_type x.target.id) r db in
                (ok id, db')
          ]
        ]

    unfoldable pub evaluate_ratio :
        Subject
        → StorageAlertRule
        → ℕ
        → Instant
        → Option AlertState
        → Tables
        → Result (Option ℕ) × Tables
    unfolding against_row without_row
    evaluate_ratio x rule ratio now (some state) db =
        against_row x rule ratio (sample_of x.target ratio now) state db
    evaluate_ratio x rule ratio now none db =
        without_row x rule ratio (sample_of x.target ratio now) x.rival db

    unfoldable pub evaluate_one :
        StorageAlertRule → Instant → Subject → Tables → Result (Option ℕ) × Tables
    unfolding effective_rule ratio_of find_state evaluate_ratio
    evaluate_one system_rule now x db = elim (effective_rule system_rule x) [
      | err e ↦ (err e, db)
      | ok rule ↦ elim (ratio_of rule.quota_basis x.target) [
        | none ↦ (ok none, db)
        | some ratio ↦
            evaluate_ratio x rule ratio now (find_state x.target_type x.target.id db.states) db
      ]
    ]
