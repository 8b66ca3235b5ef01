-- ===== src/Alerts/Evaluation/Pass/Kept.antt =====
-- What an evaluation of one target leaves of the state of another: lemmas on `_evaluate_one` of
-- backend/celery_tasks/tasks/storage_alerts.py.
use disk_pulse.Prelude.{
  ℕ, String, ◌≡◌, inl, inr, true, Option, none, some, List, Bool-cases, Option-cases,
}
use disk_pulse.Prelude.Exec.{ok, Result-cases}
use disk_pulse.Access.Db.{User}
use disk_pulse.Alerts.Rule.{StorageAlertRule, TargetType}
use disk_pulse.Alerts.Transition.{AlertState, TransitionResult, Sample, transition_alert_state}
use disk_pulse.Alerts.Transition.Observed.{seen_at}
use disk_pulse.Alerts.Evaluation.{
  StateRow, Tables, Settings, Subject, find_state, effective_rule, ratio_of, insert_state,
  write_state, write_result, against_row, without_row, sample_of, evaluate_ratio, evaluate_one,
}
use disk_pulse.Alerts.Evaluation.Pass.Known.{
  up_to_date, known-insert, known-write, write_result-states, write_result-skipped, kept_state,
}

-- The target whose state is known.
module _ (dc : Option ℕ → String) (dr : ℕ → String) (sig : StorageAlertRule → String) (c : Settings)
    (users : List User) (t : TargetType) (n : ℕ) where
  write_result-known :
      (x : Subject) (rule : StorageAlertRule) (ratio : ℕ) (sample : Sample)
      (put : AlertState → List StateRow → List StateRow) (o : Option AlertState)
      (r : TransitionResult) (db : Tables)
      → transition_alert_state sig o rule sample ≡ ok r
      → ((s : AlertState)
          → seen_at (some s) ≡ some sample.observed_at
          → up_to_date sample.observed_at t n (put s db.states) ≡ true)
      → up_to_date sample.observed_at t n db.states ≡ true
      → up_to_date sample.observed_at t n
          (write_result dc dr sig c users x rule ratio sample.observed_at put r db).1.states
        ≡ true
  write_result-known x rule ratio sample put o r db f keep h = elim (Bool-cases r.skipped) [
    | inl g ↦
        rw (write_result-skipped dc dr sig c users x rule ratio sample.observed_at put r db g) h
    | inr g ↦
        let (s', e, at_now) = kept_state dc dr sig c users o rule sample r f g in
        rw (write_result-states dc dr sig c users x rule ratio sample.observed_at put r s' db e g)
          (keep s' at_now)
  ]

  against_row-known :
      (x : Subject) (rule : StorageAlertRule) (ratio : ℕ) (sample : Sample) (s : AlertState)
      (db : Tables)
      → up_to_date sample.observed_at t n db.states ≡ true
      → up_to_date sample.observed_at t n
          (against_row dc dr sig c users x rule ratio sample s db).1.states
        ≡ true
  unfolding against_row
  against_row-known x rule ratio sample s db h =
      elim (Result-cases (transition_alert_state sig (some s) rule sample)) [
        | inl (e, f) ↦ rw (f, against_row) h
        | inr (r, f) ↦
            rw (f, against_row)
              (write_result-known x rule ratio sample (write_state x.target_type x.target.id)
                (some s) r db f
                (λ s' k.
                  known-write sample.observed_at t n x.target_type x.target.id s' db.states k h)
                h)
      ]

  without_row-known :
      (x : Subject) (rule : StorageAlertRule) (ratio : ℕ) (sample : Sample)
      (rival : Option AlertState) (db : Tables)
      → up_to_date sample.observed_at t n db.states ≡ true
      → up_to_date sample.observed_at t n
          (without_row dc dr sig c users x rule ratio sample rival db).1.states
        ≡ true
  unfolding without_row
  without_row-known x rule ratio sample rival db h =
      elim (Result-cases (transition_alert_state sig none rule sample)) [
        | inl (e, f) ↦ rw (f, without_row) h
        | inr (r, f) ↦ elim (Bool-cases r.skipped) [
          | inl g ↦ rw (f, g, without_row) h
          | inr g ↦ elim (Option-cases rival) [
            | inl k ↦
                rw (f, g, k, without_row)
                  (write_result-known x rule ratio sample (insert_state x.target_type x.target.id)
                    none r db f
                    (λ s' at_now.
                      known-insert sample.observed_at t n x.target_type x.target.id s' db.states h)
                    h)
            | inr (other, k) ↦
                rw (f, g, k, without_row)
                  (against_row-known x rule ratio sample other
                    (record db { states = insert_state x.target_type x.target.id other db.states })
                    (known-insert sample.observed_at t n x.target_type x.target.id other db.states
                      h))
          ]
        ]
      ]

  evaluate_ratio-known :
      (x : Subject) (rule : StorageAlertRule) (ratio now : ℕ) (o : Option AlertState) (db : Tables)
      → up_to_date now t n db.states ≡ true
      → up_to_date now t n (evaluate_ratio dc dr sig c users x rule ratio now o db).1.states ≡ true
  unfolding evaluate_ratio
  evaluate_ratio-known x rule ratio now none db h =
      without_row-known x rule ratio (sample_of x.target ratio now) x.rival db h
  evaluate_ratio-known x rule ratio now (some s) db h =
      against_row-known x rule ratio (sample_of x.target ratio now) s db h

  pub evaluate_one-known :
      (system_rule : StorageAlertRule) (now : ℕ) (x : Subject) (db : Tables)
      → up_to_date now t n db.states ≡ true
      → up_to_date now t n (evaluate_one dc dr sig c users system_rule now x db).1.states ≡ true
  unfolding evaluate_one
  evaluate_one-known system_rule now x db h = elim (Result-cases (effective_rule system_rule x)) [
    | inl (e, f) ↦ rw (f, evaluate_one) h
    | inr (rule, f) ↦ elim (Option-cases (ratio_of rule.quota_basis x.target)) [
      | inl g ↦ rw (f, g, evaluate_one) h
      | inr (ratio, g) ↦
          rw (f, g, evaluate_one)
            (evaluate_ratio-known x rule ratio now (find_state x.target_type x.target.id db.states)
              db h)
    ]
  ]
