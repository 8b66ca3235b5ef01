-- ===== src/Prediction/Gate.antt =====
-- The gate of backend/services/capacityPredictionGovernanceService.py before which a candidate is
-- activated. The rows come from the table, so none lacks a key. The means are sums of three over three,
-- and the comparison with nine tenths is in whole numbers, without the rounding of floats.
use disk_pulse.Prelude.{
  ℕ, ◌+◌, ◌*◌, ◌-◌, zero, suc, Bool, true, false, not, ◌&&◌, List, [], ◌∷◌, ltb, leb, ◌==◌,
  if◌then◌else◌, length, any, all,
}
use disk_pulse.Prediction.Db.{CapacityPredictionEvaluation, sort_by_end}
pub mod Recent

abbrev pub same_window : CapacityPredictionEvaluation → CapacityPredictionEvaluation → Bool
same_window e f = e.window_start == f.window_start && e.window_end == f.window_end

-- `len(set(windows)) == len(windows)`
unfoldable pub distinct_windows : List CapacityPredictionEvaluation → Bool
distinct_windows [] = true
distinct_windows (e ∷ rows) = not (any (same_window e) rows) && distinct_windows rows

-- `rows[n:]`
unfoldable pub drop : ℕ → List CapacityPredictionEvaluation → List CapacityPredictionEvaluation
drop zero rows = rows
drop (suc n) [] = []
drop (suc n) (e ∷ rows) = drop n rows

unfoldable pub last_three : List CapacityPredictionEvaluation → List CapacityPredictionEvaluation
unfolding drop
last_three rows = drop (length rows - 3) rows

unfoldable pub baseline_sum : List CapacityPredictionEvaluation → ℕ
baseline_sum [] = 0
baseline_sum (e ∷ rows) = e.baseline_mape + baseline_sum rows

unfoldable pub candidate_sum : List CapacityPredictionEvaluation → ℕ
candidate_sum [] = 0
candidate_sum (e ∷ rows) = e.candidate_mape + candidate_sum rows

unfoldable pub recent_rows_meet_gate : List CapacityPredictionEvaluation → Bool
unfolding baseline_sum candidate_sum
recent_rows_meet_gate recent =
    if not (all (λ (e : CapacityPredictionEvaluation). e.risk_coverage_ok) recent)
    then false
    else (ltb 0 (baseline_sum recent) && leb (candidate_sum recent * 10) (baseline_sum recent * 9))

unfoldable pub candidate_meets_activation_gate : List CapacityPredictionEvaluation → Bool
unfolding distinct_windows last_three recent_rows_meet_gate
candidate_meets_activation_gate evaluations =
    if ltb (length evaluations) 3
    then false
    else (if not (distinct_windows evaluations)
        then false
        else recent_rows_meet_gate (last_three (sort_by_end evaluations)))
