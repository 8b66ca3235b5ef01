-- ===== src/Incidents/Diagnosis/Examples.antt =====
-- A diagnosis at a concrete input.
use mathlib.Core.List.{Perm}
use disk_pulse.Prelude.{◌≤◌, ◌≡◌, refl, true, false, List, [], ◌∷◌, length, All}
use disk_pulse.Incidents.Diagnosis.{
  DiagnosisEvidence, Ranked, build_diagnosis, candidates_of, candidate_of, categories,
  all_data_gaps, first_three, select_evidence, put, weight_of, total_weight, newest, rank, insert,
  ahead, confidence_of,
}
use disk_pulse.Incidents.Diagnosis.Ranking.{IsRanked, build_diagnosis-IsRanked}
use disk_pulse.Incidents.Diagnosis.Bounds.{
  IsBounded, build_diagnosis-IsBounded, build_diagnosis-high,
}

-- A forecast and an alert about the hard limit, and an event of the device.
abbrev evidences : List DiagnosisEvidence
evidences =
    record {
      evidence_type = "severe_vendor_event";
      evidence_ref = "v1";
      observed_at = 3;
      data_gaps = [];
      conflicting = false;
    }
    ∷ record {
      evidence_type = "forecast_exhaustion";
      evidence_ref = "f1";
      observed_at = 1;
      data_gaps = [];
      conflicting = false;
    }
    ∷ record {
      evidence_type = "hard_limit_alert";
      evidence_ref = "a1";
      observed_at = 2;
      data_gaps = [];
      conflicting = false;
    }
    ∷ []

build_diagnosis-IsRanked_example :
    (ranked : List Ranked) × IsRanked ranked
    × Perm ranked (candidates_of (λ xs. xs) categories (all_data_gaps evidences) evidences)
    × ((build_diagnosis (λ xs. xs) 1 evidences true).candidates ≡ first_three ranked)
build_diagnosis-IsRanked_example = build_diagnosis-IsRanked (λ xs. xs) 1 evidences true

build_diagnosis-IsBounded_example :
    All (IsBounded evidences) (build_diagnosis (λ xs. xs) 1 evidences true).candidates
build_diagnosis-IsBounded_example = build_diagnosis-IsBounded (λ xs. xs) 1 evidences true

build_diagnosis-high_example : (true ≡ true) × (2 ≤ length evidences)
unfolding build_diagnosis candidates_of candidate_of select_evidence put weight_of total_weight
    newest rank insert ahead first_three confidence_of
build_diagnosis-high_example = build_diagnosis-high (λ xs. xs) 1 evidences true refl
