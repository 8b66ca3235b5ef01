-- ===== src/Alerts/Evaluation/Pass/Added.antt =====
-- What one target of a pass adds to the tables: lemmas on `_evaluate_one` of
-- backend/celery_tasks/tasks/storage_alerts.py.
use mathlib.Core.List.{append-nil}
use disk_pulse.Prelude.{
  ℕ, ◌+◌, String, ◌≡◌, refl, sym, inl, inr, Bool, true, false, not, ◌&&◌, Option, none, some, List,
  [], ◌∷◌, ◌++◌, arith, if◌then◌else◌, All, Bool-cases, Option-cases,
}
use disk_pulse.Prelude.Exec.{Result, ok, err, Result-cases}
use disk_pulse.Access.Db.{User}
use disk_pulse.Alerts.Rule.{StorageAlertRule, Level}
use disk_pulse.Alerts.Transition.{
  AlertState, EventType, recovery, TransitionResult, Sample, transition_alert_state,
}
use disk_pulse.Alerts.Delivery.{DeliveryStatus, pending}
use disk_pulse.Alerts.Delivery.Attempts.{IsBounded}
use disk_pulse.Alerts.Evaluation.{
  StateRow, AlertRow, Tables, Settings, Subject, find_state, effective_rule, ratio_of,
  recipients_of, alert_row, is_empty, insert_state, write_state, emit, write_result, against_row,
  without_row, sample_of, evaluate_ratio, evaluate_one,
}
use disk_pulse.Alerts.Evaluation.Pass.{with_id}

abbrev pub is_pending : DeliveryStatus → Bool
is_pending pending = true
is_pending _ = false

abbrev pub is_recovery : EventType → Bool
is_recovery recovery = true
is_recovery _ = false

-- The ids of the alerts that are to be delivered.
abbrev pub pending_ids : List AlertRow → List ℕ
pending_ids [] = []
pending_ids (r ∷ rows) =
    if is_pending r.delivery.delivery_status
    then r.delivery.id ∷ pending_ids rows
    else pending_ids rows

-- The alert was not tried yet. It is to be delivered at once, or nobody is told of it.
abbrev pub IsNew : ℕ → AlertRow → Type 0
IsNew now r =
    IsBounded r.delivery
    × (r.delivery.delivery_attempts ≡ 0)
    × (r.delivery.next_attempt_at
        ≡ (if is_pending r.delivery.delivery_status then some now else none))
    × ((is_recovery r.event_type && is_pending r.delivery.delivery_status) ≡ false)

-- The tables have new alerts, and the ids are those of the ones that are to be delivered.
pub record Adds (now : ℕ) (db : Tables) (ids : List ℕ) (db' : Tables) : Type 0 where
  pub new : List AlertRow
  pub appended : db'.alerts ≡ db.alerts ++ new
  pub returned : ids ≡ pending_ids new
  pub untried : All (IsNew now) new

pub nothing :
    (now : ℕ) (db : Tables) (states : List StateRow)
    → Adds now db [] (record db { states = states })
nothing now db states = record {
  new = [];
  appended = sym (append-nil db.alerts);
  returned = refl;
  untried = tt;
}

-- What a result adds, if it is one.
abbrev pub AddsOne : ℕ → Tables → Result (Option ℕ) × Tables → Type 0
AddsOne now db (ok id, db') = Adds now db (with_id id []) db'
AddsOne now db (err e, db') = Unit

recipients-recovery :
    (c : Settings) (users : List User) (x : Subject) (l : Option Level) (e : EventType)
    → (is_recovery e && not (is_empty (recipients_of c users x l e))) ≡ false
unfolding recipients_of
recipients-recovery c users x l EventType.recovery = refl
recipients-recovery c users x l EventType.trigger = refl
recipients-recovery c users x l EventType.escalation = refl
recipients-recovery c users x l EventType.repeat = refl

module _ (dc : Option ℕ → String) (dr : ℕ → String) where
  row-Adds :
      (x : Subject) (rule : StorageAlertRule) (ratio now : ℕ) (r : TransitionResult) (e : EventType)
      (recipients : List String) (db : Tables) (states : List StateRow)
      → (is_recovery e && not (is_empty recipients)) ≡ false
      → Adds now db
          (with_id (if is_empty recipients then none else some db.next_alert_id) [])
          (record db {
            states = states;
            alerts =
                db.alerts ++ alert_row dc dr x rule ratio now r e recipients db.next_alert_id ∷ [];
            next_alert_id = db.next_alert_id + 1;
          })
  unfolding alert_row
  row-Adds x rule ratio now r e [] db states h = record {
    new = alert_row dc dr x rule ratio now r e [] db.next_alert_id ∷ [];
    appended = refl;
    returned = refl;
    untried = (ground arith, tt);
  }
  row-Adds x rule ratio now r e (u ∷ us) db states h = record {
    new = alert_row dc dr x rule ratio now r e (u ∷ us) db.next_alert_id ∷ [];
    appended = refl;
    returned = refl;
    untried = (ground arith, tt);
  }

  emit-Adds :
      (c : Settings) (users : List User) (x : Subject) (rule : StorageAlertRule) (ratio now : ℕ)
      (r : TransitionResult) (o : Option EventType) (db : Tables) (states : List StateRow)
      → let (id, db') = emit dc dr c users x rule ratio now r o (record db { states = states }) in
        Adds now db (with_id id []) db'
  unfolding emit
  emit-Adds c users x rule ratio now r none db states = nothing now db states
  emit-Adds c users x rule ratio now r (some e) db states =
      row-Adds x rule ratio now r e (recipients_of c users x r.level e) db states
        (recipients-recovery c users x r.level e)

  module _ (sig : StorageAlertRule → String) (c : Settings) (users : List User) where
    write_result-Adds :
        (x : Subject) (rule : StorageAlertRule) (ratio now : ℕ)
        (put : AlertState → List StateRow → List StateRow) (r : TransitionResult) (db : Tables)
        (states : List StateRow)
        → let (id, db') =
            write_result dc dr sig c users x rule ratio now put r (record db { states = states }) in
          Adds now db (with_id id []) db'
    unfolding write_result
    write_result-Adds x rule ratio now put r db states = elim (Option-cases r.state) [
      | inl e ↦ rw (e, write_result) (nothing now db states)
      | inr (s, e) ↦ elim (Bool-cases r.skipped) [
        | inl f ↦ rw (e, f, write_result) (nothing now db states)
        | inr f ↦
            rw (e, f, write_result)
              (emit-Adds c users x rule ratio now r r.event_type db (put s states))
      ]
    ]

    against_row-Adds :
        (x : Subject) (rule : StorageAlertRule) (ratio : ℕ) (sample : Sample) (s : AlertState)
        (db : Tables) (states : List StateRow)
        → AddsOne sample.observed_at db
            (against_row dc dr sig c users x rule ratio sample s (record db { states = states }))
    unfolding against_row
    against_row-Adds x rule ratio sample s db states =
        elim (Result-cases (transition_alert_state sig (some s) rule sample)) [
          | inl (e, f) ↦ rw (f, against_row) tt
          | inr (r, f) ↦
              rw (f, against_row)
                (write_result-Adds x rule ratio sample.observed_at
                  (write_state x.target_type x.target.id) r db states)
        ]

    without_row-Adds :
        (x : Subject) (rule : StorageAlertRule) (ratio : ℕ) (sample : Sample)
        (rival : Option AlertState) (db : Tables)
        → AddsOne sample.observed_at db (without_row dc dr sig c users x rule ratio sample rival db)
    unfolding without_row
    without_row-Adds x rule ratio sample rival db =
        elim (Result-cases (transition_alert_state sig none rule sample)) [
          | inl (e, f) ↦ rw (f, without_row) tt
          | inr (r, f) ↦ elim (Bool-cases r.skipped) [
            | inl g ↦ rw (f, g, without_row) (nothing sample.observed_at db db.states)
            | inr g ↦ elim (Option-cases rival) [
              | inl k ↦
                  rw (f, g, k, without_row)
                    (write_result-Adds x rule ratio sample.observed_at
                      (insert_state x.target_type x.target.id) r db db.states)
              | inr (other, k) ↦
                  rw (f, g, k, without_row)
                    (against_row-Adds x rule ratio sample other db
                      (insert_state x.target_type x.target.id other db.states))
            ]
          ]
        ]

    evaluate_ratio-Adds :
        (x : Subject) (rule : StorageAlertRule) (ratio now : ℕ) (o : Option AlertState)
        (db : Tables)
        → AddsOne now db (evaluate_ratio dc dr sig c users x rule ratio now o db)
    unfolding evaluate_ratio
    evaluate_ratio-Adds x rule ratio now none db =
        without_row-Adds x rule ratio (sample_of x.target ratio now) x.rival db
    evaluate_ratio-Adds x rule ratio now (some s) db =
        against_row-Adds x rule ratio (sample_of x.target ratio now) s db db.states

    pub evaluate_one-Adds :
        (system_rule : StorageAlertRule) (now : ℕ) (x : Subject) (db : Tables)
        → AddsOne now db (evaluate_one dc dr sig c users system_rule now x db)
    unfolding evaluate_one
    evaluate_one-Adds system_rule now x db = elim (Result-cases (effective_rule system_rule x)) [
      | inl (e, f) ↦ rw (f, evaluate_one) tt
      | inr (rule, f) ↦ elim (Option-cases (ratio_of rule.quota_basis x.target)) [
        | inl g ↦ rw (f, g, evaluate_one) (nothing now db db.states)
        | inr (ratio, g) ↦
            rw (f, g, evaluate_one)
              (evaluate_ratio-Adds x rule ratio now (find_state x.target_type x.target.id db.states)
                db)
      ]
    ]
