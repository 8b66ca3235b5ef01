-- ===== src/Alerts/Evaluation/Pass/Known.antt =====
-- The states that `_evaluate_one` of backend/celery_tasks/tasks/storage_alerts.py leaves for a sample.
use disk_pulse.Prelude.{
  ℕ, String, ◌≡◌, ◌⊎◌, refl, sym, ap, ◌∙◌, inl, inr, Bool, true, false, Option, none, some, List,
  [], ◌∷◌, arith, find, update_where, Bool-cases, Option-cases, ==_refl,
}
use disk_pulse.Prelude.Exec.{ok, Result-cases}
use disk_pulse.Access.Db.{User}
use disk_pulse.Alerts.Rule.{StorageAlertRule, TargetType, rule_dict}
use disk_pulse.Alerts.Transition.{
  AlertState, EventType, TransitionResult, Sample, transition_alert_state,
}
use disk_pulse.Alerts.Transition.Observed.{
  seen_at, seen_by, no_soft, transition-normalized, transition-seen, transition-skipped,
}
use disk_pulse.Alerts.Evaluation.{
  StateRow, Tables, Settings, Subject, same_target, is_state, find_state, insert_state, write_state,
  emit, write_result, against_row, without_row,
}

-- The state of the target is of the time or later.
abbrev pub up_to_date : ℕ → TargetType → ℕ → List StateRow → Bool
up_to_date now t n states = seen_by now (seen_at (find_state t n states))

same_target_refl : (t : TargetType) → same_target t t ≡ true
same_target_refl TargetType.storage_usage = refl
same_target_refl TargetType.group = refl
same_target_refl TargetType.project = refl

seen_by-now : (now : ℕ) (o : Option ℕ) → o ≡ some now → seen_by now o ≡ true
seen_by-now now o h = rw h (ground arith)

find_state-insert :
    (t : TargetType) (n : ℕ) (s : AlertState) (rows : List StateRow)
    → find_state t n rows ≡ none
    → find_state t n (insert_state t n s rows) ≡ some s
unfolding find_state find
find_state-insert t n s [] h = rw (same_target_refl t, ==_refl n) refl
find_state-insert t n s (r ∷ rows) h = ground (arith, find_state-insert t n s rows)

find_state-write :
    (t : TargetType) (n : ℕ) (s s' : AlertState) (rows : List StateRow)
    → find_state t n rows ≡ some s
    → find_state t n (write_state t n s' rows) ≡ some s'
unfolding find_state find write_state update_where
find_state-write t n s s' [] h = cc h
find_state-write t n s s' (r ∷ rows) h = elim (Bool-cases (is_state t n r)) [
  | inl e ↦ rw e (rw e refl)
  | inr e ↦ ground (arith, e, find_state-write t n s s' rows)
]

pub known-insert :
    (now : ℕ) (t : TargetType) (n : ℕ) (u : TargetType) (m : ℕ) (s : AlertState)
    (rows : List StateRow)
    → up_to_date now t n rows ≡ true
    → up_to_date now t n (insert_state u m s rows) ≡ true
unfolding find_state find
known-insert now t n u m s [] h = cc h
known-insert now t n u m s (r ∷ rows) h = elim (Bool-cases (is_state t n r)) [
  | inl e ↦ rw e (rw e at h)
  | inr e ↦ rw e (known-insert now t n u m s rows (rw e at h))
]

pub known-write :
    (now : ℕ) (t : TargetType) (n : ℕ) (u : TargetType) (m : ℕ) (s : AlertState)
    (rows : List StateRow)
    → seen_at (some s) ≡ some now
    → up_to_date now t n rows ≡ true
    → up_to_date now t n (write_state u m s rows) ≡ true
unfolding find_state find write_state update_where
known-write now t n u m s [] k h = cc h
known-write now t n u m s (r ∷ rows) k h = elim (Bool-cases (is_state u m r)) [
  | inl f ↦ elim (Bool-cases (is_state t n r)) [
    | inl e ↦ rw (f, e) (seen_by-now now s.last_observed_at k)
    | inr e ↦ rw (f, e) (known-write now t n u m s rows k (rw e at h))
  ]
  | inr f ↦ elim (Bool-cases (is_state t n r)) [
    | inl e ↦ rw (f, e) (rw e at h)
    | inr e ↦ rw (f, e) (known-write now t n u m s rows k (rw e at h))
  ]
]

-- The sample is skipped, whatever the row: for want of a soft limit, or because the state is known.
abbrev pub Skips : ℕ → StorageAlertRule → Sample → TargetType → ℕ → List StateRow → Type 0
Skips now rule sample t n states = (no_soft rule sample ≡ true) ⊎ (up_to_date now t n states ≡ true)

module _ (dc : Option ℕ → String) (dr : ℕ → String) where
  emit-states :
      (c : Settings) (users : List User) (x : Subject) (rule : StorageAlertRule) (ratio now : ℕ)
      (r : TransitionResult) (o : Option EventType) (db : Tables)
      → (emit dc dr c users x rule ratio now r o db).1.states ≡ db.states
  unfolding emit
  emit-states c users x rule ratio now r none db = refl
  emit-states c users x rule ratio now r (some e) db = refl

  module _ (sig : StorageAlertRule → String) (c : Settings) (users : List User) where
    -- The states behind a result that is not skipped.
    pub write_result-states :
        (x : Subject) (rule : StorageAlertRule) (ratio now : ℕ)
        (put : AlertState → List StateRow → List StateRow) (r : TransitionResult) (s : AlertState)
        (db : Tables)
        → r.state ≡ some s
        → r.skipped ≡ false
        → (write_result dc dr sig c users x rule ratio now put r db).1.states ≡ put s db.states
    unfolding write_result
    write_result-states x rule ratio now put r s db h k =
        rw (h, k, write_result)
          (emit-states c users x rule ratio now r r.event_type
            (record db { states = put s db.states }))

    pub write_result-skipped :
        (x : Subject) (rule : StorageAlertRule) (ratio now : ℕ)
        (put : AlertState → List StateRow → List StateRow) (r : TransitionResult) (db : Tables)
        → r.skipped ≡ true
        → write_result dc dr sig c users x rule ratio now put r db ≡ (none, db)
    unfolding write_result
    write_result-skipped x rule ratio now put r db k = elim (Option-cases r.state) [
      | inl e ↦ rw (e, write_result) refl
      | inr (s, e) ↦ rw (e, k, write_result) refl
    ]

    -- A result that is not skipped: its state, of the sample's time.
    pub kept_state :
        (o : Option AlertState) (rule : StorageAlertRule) (sample : Sample) (r : TransitionResult)
        → transition_alert_state sig o rule sample ≡ ok r
        → r.skipped ≡ false
        → (s : AlertState) × (r.state ≡ some s) × (seen_at (some s) ≡ some sample.observed_at)
    kept_state o rule sample r h k = elim (Option-cases r.state) [
      | inl e ↦ absurd (cc (ap seen_at (sym e) ∙ transition-seen sig o rule sample r h k))
      | inr (s, e) ↦ (s, e, ap seen_at (sym e) ∙ transition-seen sig o rule sample r h k)
    ]

    -- Against a row, the target's own state is known afterwards, or the sample is skipped.
    pub against_row-Skips :
        (x : Subject) (rule : StorageAlertRule) (ratio : ℕ) (sample : Sample) (s : AlertState)
        (db : Tables) (id : Option ℕ)
        → find_state x.target_type x.target.id db.states ≡ some s
        → (against_row dc dr sig c users x rule ratio sample s db).0 ≡ ok id
        → (rule_dict rule ≡ ok rule)
          × Skips sample.observed_at rule sample x.target_type x.target.id
              (against_row dc dr sig c users x rule ratio sample s db).1.states
    unfolding against_row
    against_row-Skips x rule ratio sample s db id found h =
        elim (Result-cases (transition_alert_state sig (some s) rule sample)) [
          | inl (e, f) ↦ cc (rw (f, against_row) at h)
          | inr (r, f) ↦
              let put = write_state x.target_type x.target.id in
              let valid : rule_dict rule ≡ ok rule =
                (transition-normalized sig (some s) rule sample r f).0 in
              elim (Bool-cases r.skipped) [
                | inl g ↦
                    rw
                      (
                        f,
                        write_result-skipped x rule ratio sample.observed_at put r db g,
                        against_row,
                      )
                      (
                        valid,
                        elim (transition-skipped sig (some s) rule sample r f g) [
                          | inl soft ↦ inl soft
                          | inr seen ↦ inr (rw found seen)
                        ],
                      )
                | inr g ↦
                    let (s', e, at_now) = kept_state (some s) rule sample r f g in
                    rw
                      (
                        f,
                        write_result-states x rule ratio sample.observed_at put r s' db e g,
                        against_row,
                      )
                      (
                        valid,
                        inr (
                            rw (find_state-write x.target_type x.target.id s s' db.states found)
                              (seen_by-now sample.observed_at s'.last_observed_at at_now)),
                      )
              ]
        ]

    pub without_row-Skips :
        (x : Subject) (rule : StorageAlertRule) (ratio : ℕ) (sample : Sample)
        (rival : Option AlertState) (db : Tables) (id : Option ℕ)
        → find_state x.target_type x.target.id db.states ≡ none
        → (without_row dc dr sig c users x rule ratio sample rival db).0 ≡ ok id
        → (rule_dict rule ≡ ok rule)
          × Skips sample.observed_at rule sample x.target_type x.target.id
              (without_row dc dr sig c users x rule ratio sample rival db).1.states
    unfolding without_row
    without_row-Skips x rule ratio sample rival db id absent h =
        elim (Result-cases (transition_alert_state sig none rule sample)) [
          | inl (e, f) ↦ cc (rw (f, without_row) at h)
          | inr (r, f) ↦
              let put = insert_state x.target_type x.target.id in
              let valid : rule_dict rule ≡ ok rule =
                (transition-normalized sig none rule sample r f).0 in
              elim (Bool-cases r.skipped) [
                | inl g ↦
                    rw (f, g, without_row)
                      (
                        valid,
                        elim (transition-skipped sig none rule sample r f g) [
                          | inl soft ↦ inl soft
                          | inr seen ↦ cc seen
                        ],
                      )
                | inr g ↦ elim (Option-cases rival) [
                  | inr (other, k) ↦
                      let found =
                        find_state-insert x.target_type x.target.id other db.states absent in
                      let db' : Tables = record db { states = put other db.states } in
                      rw (f, g, k, without_row)
                        (against_row-Skips x rule ratio sample other db' id found
                          (rw (f, g, k, without_row) at h))
                  | inl k ↦
                      let (s', e, at_now) = kept_state none rule sample r f g in
                      rw
                        (
                          f,
                          g,
                          k,
                          without_row,
                          write_result-states x rule ratio sample.observed_at put r s' db e g,
                        )
                        (
                          valid,
                          inr (
                              rw (find_state-insert x.target_type x.target.id s' db.states absent)
                                (seen_by-now sample.observed_at s'.last_observed_at at_now)),
                        )
                ]
              ]
        ]
