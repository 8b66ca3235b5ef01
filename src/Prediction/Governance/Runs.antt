-- ===== src/Prediction/Governance/Runs.antt =====
-- Sequences of the operations of backend/services/capacityPredictionGovernanceService.py on candidates,
-- whether they succeed or raise, and of changes of the configured AI models by others.
use disk_pulse.Prelude.{
  ℕ, String, ◌≡◌, refl, sym, subst, Bool, List, [], ◌∷◌, Bool-cases, Option-cases, inl, inr,
  is_some,
}
use disk_pulse.Prelude.Exec.{Error, Result, Result-cases, ok, err}
use disk_pulse.Prediction.Gate.{candidate_meets_activation_gate}
use disk_pulse.Prediction.Db.{
  Figure, Stamp, AiConfig, CapacityPredictionEvaluation, Store, add_candidate_evaluation,
  add_candidate, get_candidate, get_candidate_by_version, get_model, has_candidate_evaluation,
  list_candidate_evaluations,
}
use disk_pulse.Prediction.Governance.{
  commit_evaluations, commit_candidates, or_conflict, create_capacity_prediction_candidate,
  check_evaluation, insert_evaluation, record_capacity_prediction_evaluation,
  activate_capacity_prediction_candidate, update_prediction_settings, switch_to, usable,
}

pub data Call : Type 0 where
  create : List (String × ℕ) → String → ℕ → Call
  evaluate : List CapacityPredictionEvaluation → ℕ → Figure → Figure → Bool → Stamp → Stamp → Call
  activate : ℕ → Call
  publish : ℕ → Bool → Call
  configure : List AiConfig → Call

unfoldable pub step : Call → Store → Store
step (create others version model) s =
    (create_capacity_prediction_candidate others version model s).1
step (evaluate others n baseline candidate risk_ok start end) s =
    (record_capacity_prediction_evaluation others n baseline candidate risk_ok start end s).1
step (activate n) s = (activate_capacity_prediction_candidate n s).1
step (publish user_id visible) s = update_prediction_settings user_id visible s
step (configure models) s = record s { models = models }

unfoldable pub run : List Call → Store → Store
unfolding step
run [] s = s
run (c ∷ calls) s = run calls (step c s)

or_conflict-snd {ℓ} : {A : Type ℓ} (e : Error) (r : Result A × Store) → (or_conflict e r).1 ≡ r.1
or_conflict-snd e (ok a, s) = refl
or_conflict-snd e (err Error.integrity_error, s) = refl
or_conflict-snd e (err Error.key_error, s) = refl
or_conflict-snd e (err Error.type_error, s) = refl
or_conflict-snd e (err Error.overflow_error, s) = refl
or_conflict-snd e (err (Error.http_exception n d), s) = refl
or_conflict-snd e (err (Error.value_error d), s) = refl
or_conflict-snd e (err (Error.lookup_error d), s) = refl
or_conflict-snd e (err (Error.runtime_error d), s) = refl

-- What holds of a store and survives a new row survives the operations that add rows.
module _ {ℓ} (P : Store → Type ℓ) where
  commit_candidates-keeps :
      ((version : String) (model : ℕ) (s : Store) → P s → P (add_candidate version model s).1)
      → (others : List (String × ℕ)) (s : Store) → P s
      → P (commit_candidates others s)
  unfolding commit_candidates
  commit_candidates-keeps keep [] s h = h
  commit_candidates-keeps keep ((version, model) ∷ others) s h =
      commit_candidates-keeps keep others (add_candidate version model s).1 (keep version model s h)

  pub create-keeps :
      ((version : String) (model : ℕ) (s : Store) → P s → P (add_candidate version model s).1)
      → (others : List (String × ℕ)) (version : String) (model : ℕ) (s : Store) → P s
      → P (create_capacity_prediction_candidate others version model s).1
  unfolding create_capacity_prediction_candidate
  create-keeps keep others version model s h =
      elim (Bool-cases (is_some (get_candidate_by_version version s.candidates))) [
        | inl e ↦ rw (e, create_capacity_prediction_candidate) h
        | inr e ↦ elim (Bool-cases (usable (get_model s model))) [
          | inr f ↦ rw (e, f, create_capacity_prediction_candidate) h
          | inl f ↦
              rw (e, f, create_capacity_prediction_candidate)
                (subst P
                  (sym
                    (or_conflict-snd _ (add_candidate version model (commit_candidates others s))))
                  (keep version model _ (commit_candidates-keeps keep others s h)))
        ]
      ]

  commit_evaluations-keeps :
      ((e : CapacityPredictionEvaluation) (s : Store) → P s → P (add_candidate_evaluation e s).1)
      → (others : List CapacityPredictionEvaluation) (s : Store) → P s
      → P (commit_evaluations others s)
  unfolding commit_evaluations
  commit_evaluations-keeps keep [] s h = h
  commit_evaluations-keeps keep (e ∷ others) s h =
      commit_evaluations-keeps keep others (add_candidate_evaluation e s).1 (keep e s h)

  insert_evaluation-keeps :
      ((e : CapacityPredictionEvaluation) (s : Store) → P s → P (add_candidate_evaluation e s).1)
      → (others : List CapacityPredictionEvaluation) (e : CapacityPredictionEvaluation) (s : Store)
      → P s
      → P (insert_evaluation others e s).1
  unfolding insert_evaluation
  insert_evaluation-keeps keep others e s h =
      elim (Bool-cases
        (has_candidate_evaluation e.candidate_id e.window_start e.window_end s.evaluations)) [
          | inl t ↦ rw (t, insert_evaluation) h
          | inr t ↦
              rw (t, insert_evaluation)
                (subst P
                  (sym
                    (or_conflict-snd _ (add_candidate_evaluation e (commit_evaluations others s))))
                  (keep e _ (commit_evaluations-keeps keep others s h)))
        ]

  pub evaluate-keeps :
      ((e : CapacityPredictionEvaluation) (s : Store) → P s → P (add_candidate_evaluation e s).1)
      → (others : List CapacityPredictionEvaluation) (n : ℕ) (baseline candidate : Figure)
        (risk_ok : Bool) (start end : Stamp) (s : Store)
      → P s
      → P (record_capacity_prediction_evaluation others n baseline candidate risk_ok start end s).1
  unfolding record_capacity_prediction_evaluation
  evaluate-keeps keep others n baseline candidate risk_ok start end s h =
      elim (Option-cases (get_candidate n s.candidates)) [
        | inl e ↦ rw (e, record_capacity_prediction_evaluation) h
        | inr (c, e) ↦ elim (Result-cases (check_evaluation start end baseline candidate)) [
          | inl (x, f) ↦ rw (e, f, record_capacity_prediction_evaluation) h
          | inr (w, f) ↦
              rw (e, f, record_capacity_prediction_evaluation)
                (insert_evaluation-keeps keep others _ s h)
        ]
      ]

  pub activate-keeps :
      ((n : ℕ) (s : Store) → P s → P (switch_to n s))
      → (n : ℕ) (s : Store) → P s
      → P (activate_capacity_prediction_candidate n s).1
  unfolding activate_capacity_prediction_candidate
  activate-keeps keep n s h = elim (Option-cases (get_candidate n s.candidates)) [
    | inl e ↦ rw (e, activate_capacity_prediction_candidate) h
    | inr (c, e) ↦ elim (Bool-cases (usable (get_model s c.ai_model_id))) [
      | inr f ↦ rw (e, f, activate_capacity_prediction_candidate) h
      | inl f ↦
          elim (Bool-cases (candidate_meets_activation_gate (list_candidate_evaluations n s))) [
            | inr g ↦ rw (e, f, g, activate_capacity_prediction_candidate) h
            | inl g ↦ rw (e, f, g, activate_capacity_prediction_candidate) (keep n s h)
          ]
    ]
  ]

  -- An invariant of a run.
  pub run-keeps :
      ((version : String) (model : ℕ) (s : Store) → P s → P (add_candidate version model s).1)
      → ((e : CapacityPredictionEvaluation) (s : Store) → P s → P (add_candidate_evaluation e s).1)
      → ((n : ℕ) (s : Store) → P s → P (switch_to n s))
      → ((user_id : ℕ) (visible : Bool) (s : Store)
          → P s
          → P (update_prediction_settings user_id visible s))
      → ((models : List AiConfig) (s : Store) → P s → P (record s { models = models }))
      → (calls : List Call) (s : Store) → P s
      → P (run calls s)
  unfolding run step
  run-keeps k1 k2 k3 k4 k5 [] s h = h
  run-keeps k1 k2 k3 k4 k5 (create others version model ∷ calls) s h =
      run-keeps k1 k2 k3 k4 k5 calls _ (create-keeps k1 others version model s h)
  run-keeps k1 k2 k3 k4 k5 (evaluate others n baseline candidate risk_ok start end ∷ calls) s h =
      run-keeps k1 k2 k3 k4 k5 calls _
        (evaluate-keeps k2 others n baseline candidate risk_ok start end s h)
  run-keeps k1 k2 k3 k4 k5 (activate n ∷ calls) s h =
      run-keeps k1 k2 k3 k4 k5 calls _ (activate-keeps k3 n s h)
  run-keeps k1 k2 k3 k4 k5 (publish user_id visible ∷ calls) s h =
      run-keeps k1 k2 k3 k4 k5 calls _ (k4 user_id visible s h)
  run-keeps k1 k2 k3 k4 k5 (configure models ∷ calls) s h =
      run-keeps k1 k2 k3 k4 k5 calls _ (k5 models s h)
