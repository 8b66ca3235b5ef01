-- ===== src/Prediction/Governance/History.antt =====
-- How a candidate comes to be enabled: what `activate_capacity_prediction_candidate` of
-- backend/services/capacityPredictionGovernanceService.py asks for.
use disk_pulse.Prelude.{
  ℕ, String, ◌≡◌, ◌⊎◌, ◌↔◌, inl, inr, refl, sym, ap, ◌∙◌, true, false, some, List, [], ◌∷◌, ◌++◌,
  arith, ◌==◌, Bool-cases, Option-cases, is_some, find, subst, any, update_where,
}
use disk_pulse.Prelude.Exec.{Error, ok, err}
use disk_pulse.Prediction.Db.{
  CapacityPredictionCandidate, CapacityPredictionEvaluation, Store, enabled_id, get_model,
  get_candidate, get_candidate_by_version, disable_candidates, list_candidate_evaluations,
  add_candidate_evaluation, add_candidate,
}
use disk_pulse.Prediction.Gate.{candidate_meets_activation_gate}
use disk_pulse.Prediction.Governance.{
  usable, enable, switch_to, activate_capacity_prediction_candidate, update_prediction_settings,
}
use disk_pulse.Prediction.Governance.Runs.{
  Call, create, evaluate, activate, publish, configure, step, run, create-keeps, evaluate-keeps,
}

-- The candidate is there, its model is enabled, and its evaluations pass the gate.
pub record MayServe (n : ℕ) (s : Store) : Type 0 where
  pub candidate : CapacityPredictionCandidate
  pub found : get_candidate n s.candidates ≡ some candidate
  pub model_enabled : usable (get_model s candidate.ai_model_id) ≡ true
  pub gate : candidate_meets_activation_gate (list_candidate_evaluations n s) ≡ true

-- Only these rows are enabled.
abbrev pub Within : List CapacityPredictionCandidate → Store → Type 0
Within rows s = (n : ℕ) → enabled_id s.candidates n ≡ true → enabled_id rows n ≡ true

enabled_id-append_disabled :
    (rows : List CapacityPredictionCandidate) (c : CapacityPredictionCandidate) (n : ℕ)
    → c.enabled ≡ false
    → enabled_id (rows ++ c ∷ []) n ≡ enabled_id rows n
unfolding any
enabled_id-append_disabled [] c n h = ground arith
enabled_id-append_disabled (d ∷ rows) c n h = ground (arith, enabled_id-append_disabled rows c n h)

add_candidate-Within :
    (rows : List CapacityPredictionCandidate) (version : String) (model : ℕ) (s : Store)
    → Within rows s
    → Within rows (add_candidate version model s).1
unfolding add_candidate
add_candidate-Within rows version model s h n e =
    elim (Bool-cases (is_some (get_candidate_by_version version s.candidates))) [
      | inl t ↦ h n (rw (t, add_candidate) at e)
      | inr t ↦
          h n
            (sym (enabled_id-append_disabled s.candidates _ n refl) ∙ (rw (t, add_candidate) at e))
    ]

add_candidate_evaluation-Within :
    (rows : List CapacityPredictionCandidate) (e : CapacityPredictionEvaluation) (s : Store)
    → Within rows s
    → Within rows (add_candidate_evaluation e s).1
unfolding add_candidate_evaluation
add_candidate_evaluation-Within rows e s h n k = ground (arith, h n)

disabled_id :
    (rows : List CapacityPredictionCandidate) (n m : ℕ)
    → enabled_id (enable m (disable_candidates rows)) n ≡ true
    → m ≡ n
unfolding any enable disable_candidates update_where
disabled_id [] n m h = cc
disabled_id (c ∷ rows) n m h = ground (arith, disabled_id rows n m)

activate-enabled :
    (m : ℕ) (s : Store) (n : ℕ)
    → enabled_id (activate_capacity_prediction_candidate m s).1.candidates n ≡ true
    → (enabled_id s.candidates n ≡ true) ⊎ ((m ≡ n) × MayServe m s)
unfolding activate_capacity_prediction_candidate
activate-enabled m s n h = elim (Option-cases (get_candidate m s.candidates)) [
  | inl e ↦ inl (rw (e, activate_capacity_prediction_candidate) at h)
  | inr (c, e) ↦ elim (Bool-cases (usable (get_model s c.ai_model_id))) [
    | inr f ↦ inl (rw (e, f, activate_capacity_prediction_candidate) at h)
    | inl f ↦ elim (Bool-cases (candidate_meets_activation_gate (list_candidate_evaluations m s))) [
      | inr g ↦ inl (rw (e, f, g, activate_capacity_prediction_candidate) at h)
      | inl g ↦
          let switched : enabled_id (switch_to m s).candidates n ≡ true =
            (rw (e, f, g, activate_capacity_prediction_candidate) at h) in
          inr (
            disabled_id s.candidates n m switched,
            record { candidate = c; found = e; model_enabled = f; gate = g },
          )
    ]
  ]
]

-- How the candidate was enabled by the calls.
abbrev pub WasActivated : ℕ → List Call → Store → Type 0
WasActivated n calls s =
    (before : List Call) × (after : List Call) × (calls ≡ before ++ activate n ∷ after)
    × MayServe n (run before s)

later :
    (n : ℕ) (c : Call) (calls : List Call) (s : Store)
    → WasActivated n calls (step c s)
    → WasActivated n (c ∷ calls) s
unfolding run
later n c calls s (before, after, same, may) = (c ∷ before, after, rw same refl, may)

step-enabled :
    (c : Call) (s : Store) (n : ℕ)
    → enabled_id (step c s).candidates n ≡ true
    → (enabled_id s.candidates n ≡ true) ⊎ ((c ≡ activate n) × MayServe n s)
unfolding step update_prediction_settings
step-enabled (create others version model) s n h = inl (
    create-keeps (Within s.candidates) (add_candidate-Within s.candidates) others version model s
      (λ m e. e) n h)
step-enabled (evaluate others m baseline candidate risk_ok start end) s n h = inl (
    evaluate-keeps (Within s.candidates) (add_candidate_evaluation-Within s.candidates) others m
      baseline candidate risk_ok start end s (λ m e. e) n h)
step-enabled (activate m) s n h = elim (activate-enabled m s n h) [
  | inl e ↦ inl e
  | inr (same, may) ↦ inr (ap activate same, subst (λ k. MayServe k s) same may)
]
step-enabled (publish user_id visible) s n h = inl h
step-enabled (configure models) s n h = inl h

-- A candidate that is enabled after a sequence of operations was enabled before it, or one of the
-- operations is its activation, and at that point the candidate was stored, its model was enabled, and
-- its evaluations passed the gate.
pub run-WasActivated :
    (calls : List Call) (s : Store) (n : ℕ)
    → enabled_id (run calls s).candidates n ≡ true
    → (enabled_id s.candidates n ≡ true) ⊎ WasActivated n calls s
unfolding run
run-WasActivated [] s n h = inl h
run-WasActivated (c ∷ calls) s n h = elim (run-WasActivated calls (step c s) n h) [
  | inr w ↦ inr (later n c calls s w)
  | inl e ↦ elim (step-enabled c s n e) [
    | inl f ↦ inl f
    | inr (same, may) ↦ inr ([], calls, ap (λ x. x ∷ calls) same, may)
  ]
]

switched_id :
    (rows : List CapacityPredictionCandidate) (n m : ℕ) (c : CapacityPredictionCandidate)
    → get_candidate n rows ≡ some c
    → enabled_id (enable n (disable_candidates rows)) m ≡ (n == m)
unfolding any enable disable_candidates update_where get_candidate find
switched_id [] n m c h = cc
switched_id (d ∷ rows) n m c h = ground (arith, switched_id rows n m c, disabled_id rows m n)

-- The activation succeeds exactly if the candidate is stored, its model is enabled and its evaluations
-- pass the gate.
pub activate_capacity_prediction_candidate_iff :
    (n : ℕ) (s : Store) → ((activate_capacity_prediction_candidate n s).0 ≡ ok tt) ↔ MayServe n s
unfolding activate_capacity_prediction_candidate
activate_capacity_prediction_candidate_iff n s = (
  λ h. elim (Option-cases (get_candidate n s.candidates)) [
    | inl e ↦ ground arith
    | inr (c, e) ↦ record {
      candidate = c;
      found = e;
      model_enabled = ground arith;
      gate = ground arith;
    }
  ],
  λ may. rw (may.found, may.model_enabled, may.gate, activate_capacity_prediction_candidate) refl,
)

-- After a successful activation the candidate is the only one that is enabled.
pub activate_capacity_prediction_candidate-only :
    (n m : ℕ) (s : Store)
    → (activate_capacity_prediction_candidate n s).0 ≡ ok tt
    → enabled_id (activate_capacity_prediction_candidate n s).1.candidates m ≡ (n == m)
unfolding activate_capacity_prediction_candidate
activate_capacity_prediction_candidate-only n m s h =
    let may = (activate_capacity_prediction_candidate_iff n s).0 h in
    rw (may.found, may.model_enabled, may.gate, activate_capacity_prediction_candidate)
      (switched_id s.candidates n m may.candidate may.found)

-- A refused activation changes nothing.
activate_capacity_prediction_candidate-refused :
    (n : ℕ) (s : Store) (e : Error)
    → (activate_capacity_prediction_candidate n s).0 ≡ err e
    → (activate_capacity_prediction_candidate n s).1 ≡ s
unfolding activate_capacity_prediction_candidate
activate_capacity_prediction_candidate-refused n s e h =
    elim (Option-cases (get_candidate n s.candidates)) [
      | inl f ↦ rw (f, activate_capacity_prediction_candidate) refl
      | inr (c, f) ↦ ground arith
    ]
