-- ===== src/Prediction/Governance.antt =====
-- The operations of backend/services/capacityPredictionGovernanceService.py that write: candidates,
-- their evaluations, their activation, the settings and the stored forecasts. What other transactions
-- commit between the check of an operation and its flush is an argument.
use package.text.Mathlib.Text.{◌==◌ as str_eq}
use disk_pulse.Prelude.{
  ℕ, ◌+◌, String, Bool, true, false, not, ◌&&◌, Option, none, some, List, [], ◌∷◌, ◌++◌, ltb, leb,
  ◌==◌, if◌then◌else◌, is_some, update_where, length,
}
use disk_pulse.Prelude.Exec.{
  http_exception, integrity_error, Error, Result, ok, err, Exec, pure, raise, guard, modify, ◌>>=◌,
  ◌>>◌,
}
use disk_pulse.Prelude.Time.{Instant, hours}
use disk_pulse.Prediction.Db.{
  Figure, at, below, not_finite, Stamp, AiConfig, CapacityPredictionCandidate,
  CapacityPredictionEvaluation, CapacityPredictionSettings, Store, get_model, get_candidate,
  get_candidate_by_version, disable_candidates, list_candidate_evaluations,
  has_candidate_evaluation, add_candidate_evaluation, add_candidate,
}
use disk_pulse.Prediction.Gate.{candidate_meets_activation_gate}
pub mod Runs
pub mod Single
pub mod History

-- Rows of other transactions: the table's constraint holds for them too.
unfoldable pub commit_evaluations : List CapacityPredictionEvaluation → Store → Store
commit_evaluations [] s = s
commit_evaluations (e ∷ rows) s = commit_evaluations rows (add_candidate_evaluation e s).1

unfoldable pub commit_candidates : List (String × ℕ) → Store → Store
commit_candidates [] s = s
commit_candidates ((version, model) ∷ rows) s =
    commit_candidates rows (add_candidate version model s).1

-- `model is None or model.enabled is not True`, the other way round.
abbrev pub usable : Option AiConfig → Bool
usable none = false
usable (some m) = m.enabled

model_required : Error
model_required = http_exception 422 "configured and enabled AI model is required"

version_exists : Error
version_exists = http_exception 409 "capacity prediction version already exists"

candidate_missing : Error
candidate_missing = http_exception 404 "capacity prediction candidate was not found"

window_exists : Error
window_exists = http_exception 409 "candidate evaluation window already exists"

-- `except IntegrityError as error: rollback_checkpoint(db); raise e`
abbrev pub or_conflict {ℓ} : {A : Type ℓ} → Error → Result A × Store → Result A × Store
or_conflict e (err integrity_error, s) = (err e, s)
or_conflict e (r, s) = (r, s)

unfoldable pub create_capacity_prediction_candidate :
    List (String × ℕ) → String → ℕ → Exec Store CapacityPredictionCandidate
unfolding commit_candidates version_exists model_required
create_capacity_prediction_candidate others version ai_model_id s =
    if is_some (get_candidate_by_version version s.candidates)
    then (err version_exists, s)
    else (if not (usable (get_model s ai_model_id))
        then (err model_required, s)
        else or_conflict version_exists
            (add_candidate version ai_model_id (commit_candidates others s)))

-- `not math.isfinite(x)`, and `x < 0`
abbrev pub finite : Figure → Bool
finite not_finite = false
finite _ = true

abbrev pub negative : Figure → Bool
negative (below n) = true
negative _ = false

abbrev pub value : Figure → ℕ
value (at n) = n
value _ = 0

abbrev holdout : ℕ
holdout = hours 720

-- The checks of the arguments, in the order of the code.
unfoldable pub check_evaluation : Stamp → Stamp → Figure → Figure → Result (Instant × Instant)
check_evaluation (some start) (some end) baseline candidate =
    if leb end start
    then err (http_exception 422 "evaluation window is invalid")
    else (if not (end == start + holdout)
        then err (http_exception 422 "evaluation window must be exactly 30-day holdout")
        else (if not (finite baseline && finite candidate)
            then err (http_exception 422 "MAPE must be finite")
            else (if not (not (negative baseline) && not (negative candidate))
                then err (http_exception 422 "MAPE must not be negative")
                else ok (start, end))))
check_evaluation _ _ baseline candidate = err (http_exception 422 "evaluation window is invalid")

-- `_record`: the row goes in unless one of its window is there.
unfoldable pub insert_evaluation :
    List CapacityPredictionEvaluation → CapacityPredictionEvaluation → Exec Store (Unit {0})
unfolding commit_evaluations window_exists
insert_evaluation others e s =
    if has_candidate_evaluation e.candidate_id e.window_start e.window_end s.evaluations
    then (err window_exists, s)
    else or_conflict window_exists (add_candidate_evaluation e (commit_evaluations others s))

unfoldable pub record_capacity_prediction_evaluation :
    List CapacityPredictionEvaluation
    → ℕ
    → Figure
    → Figure
    → Bool
    → Stamp
    → Stamp
    → Exec Store (Unit {0})
unfolding check_evaluation insert_evaluation candidate_missing
record_capacity_prediction_evaluation others n baseline candidate risk_ok start end s =
    elim (get_candidate n s.candidates) [
      | none ↦ (err candidate_missing, s)
      | some _ ↦ elim (check_evaluation start end baseline candidate) [
        | err e ↦ (err e, s)
        | ok (from, to) ↦
            insert_evaluation others
              (record {
                candidate_id = n;
                baseline_mape = value baseline;
                candidate_mape = value candidate;
                risk_coverage_ok = risk_ok;
                window_start = from;
                window_end = to;
              })
              s
      ]
    ]

-- `candidate.enabled = True`
unfoldable pub enable : ℕ → List CapacityPredictionCandidate → List CapacityPredictionCandidate
enable n rows =
    update_where (λ (c : CapacityPredictionCandidate). c.id == n)
      (λ (c : CapacityPredictionCandidate). record c { enabled = true }) rows

-- The candidates after `disable_candidates` and the flush.
unfoldable pub switch_to : ℕ → Store → Store
unfolding enable
switch_to n s = record s { candidates = enable n (disable_candidates s.candidates) }

unfoldable pub activate_capacity_prediction_candidate : ℕ → Exec Store (Unit {0})
unfolding switch_to candidate_missing model_required
activate_capacity_prediction_candidate n s = elim (get_candidate n s.candidates) [
  | none ↦ (err candidate_missing, s)
  | some candidate ↦
      if not (usable (get_model s candidate.ai_model_id))
      then (err model_required, s)
      else (if not (candidate_meets_activation_gate (list_candidate_evaluations n s))
          then (err (http_exception 422 "candidate activation gate was not met"), s)
          else (ok tt, switch_to n s))
]

-- `get_or_create_settings` and the two assignments.
unfoldable pub update_prediction_settings : ℕ → Bool → Store → Store
update_prediction_settings user_id user_visible s = record s {
  settings = some (record { user_visible = user_visible; updated_by = some user_id });
}

unfoldable pub settings_visible : Option CapacityPredictionSettings → Bool
settings_visible none = false
settings_visible (some row) = row.user_visible

unfoldable pub get_prediction_settings : Store → Bool
unfolding settings_visible
get_prediction_settings s = settings_visible s.settings
