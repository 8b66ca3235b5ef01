-- ===== src/Incidents/Diagnosis.antt =====
-- `build_diagnosis` of backend/services/forecastIncidentService.py. A weight and a score are numbers of
-- hundredths. How Python sorts the texts of a set is a parameter.
pub mod Ranking
pub mod Bounds
mod Examples
use package.text.Mathlib.Text.{◌==◌ as str_eq}
use disk_pulse.Prelude.{
  ℕ, zero, suc, ◌+◌, ◌-◌, String, Bool, true, false, ◌&&◌, ◌||◌, Option, none, some, List, [], ◌∷◌,
  ◌++◌, map, ltb, leb, ◌==◌, if◌then◌else◌, length, min, max, find,
}
use disk_pulse.Prelude.Time.{Instant}
use disk_pulse.Incidents.Db.{
  Category, capacity_pressure, device_fault, performance_contention, telemetry_blindspot,
}

-- `_PRIORITY`
abbrev pub priority : Category → ℕ
priority capacity_pressure = 0
priority device_fault = 1
priority performance_contention = 2
priority telemetry_blindspot = 3

-- `_WEIGHTS`
abbrev pub weights : Category → List (String × ℕ)
weights capacity_pressure =
    ("forecast_exhaustion", 45)
    ∷ ("hard_limit_alert", 35)
    ∷ ("soft_limit_alert", 35)
    ∷ ("high_usage", 20)
    ∷ []
weights device_fault =
    ("severe_vendor_event", 50) ∷ ("repeated_fingerprint", 25) ∷ ("collection_error", 15) ∷ []
weights performance_contention =
    ("continuous_performance_anomaly", 45)
    ∷ ("throughput_iops_deviation", 30)
    ∷ ("workload_overlap", 25)
    ∷ []
weights telemetry_blindspot =
    ("telemetry_stale", 60) ∷ ("collection_failure", 25) ∷ ("coverage_insufficient", 15) ∷ []

abbrev pub categories : List Category
categories = capacity_pressure ∷ device_fault ∷ performance_contention ∷ telemetry_blindspot ∷ []

pub record DiagnosisEvidence : Type 0 where
  pub evidence_type : String
  pub evidence_ref : String
  pub observed_at : Instant
  pub data_gaps : List String
  pub conflicting : Bool

pub record DiagnosisCandidate : Type 0 where
  pub category : Category
  pub score : ℕ
  pub evidence_refs : List String
  pub independent_evidence_types : ℕ
  pub data_gaps : List String

pub data Confidence : Type 0 where
  high medium low insufficient : Confidence

pub record DiagnosisResult : Type 0 where
  pub incident_id : ℕ
  pub candidates : List DiagnosisCandidate
  pub confidence : Confidence
  pub evidence_ids : List String
  pub data_gaps : List String

-- `weights.get(evidence_type)`
unfoldable pub weight_of : String → List (String × ℕ) → Option ℕ
weight_of t [] = none
weight_of t ((u, w) ∷ rest) = if str_eq t u then some w else weight_of t rest

-- What is selected, by the type of the evidence, in the order of insertion.
abbrev pub Selected : Type 0
Selected = List (DiagnosisEvidence × ℕ)

-- `if current is None or weight > current[1]: selected[evidence_type] = (evidence, weight)`
unfoldable pub put : DiagnosisEvidence → ℕ → Selected → Selected
put e w [] = (e, w) ∷ []
put e w ((f, v) ∷ rest) =
    let later = put e w rest in
    if str_eq e.evidence_type f.evidence_type
    then (if ltb v w then (e, w) ∷ rest else (f, v) ∷ rest)
    else (f, v) ∷ later

-- The loop over the evidence.
unfoldable pub select_evidence :
    List (String × ℕ) → List DiagnosisEvidence → Selected × Bool → Selected × Bool
unfolding weight_of put
select_evidence ws [] (selected, conflict) = (selected, conflict)
select_evidence ws (e ∷ es) (selected, conflict) = elim (weight_of e.evidence_type ws) [
  | none ↦ select_evidence ws es (selected, conflict)
  | some w ↦ select_evidence ws es (put e w selected, conflict || e.conflicting)
]

unfoldable pub total_weight : Selected → ℕ
total_weight [] = 0
total_weight ((e, w) ∷ rest) = w + total_weight rest

unfoldable pub newest : Selected → Instant
newest [] = 0
newest ((e, w) ∷ rest) = max e.observed_at (newest rest)

abbrev pub Ranked : Type 0
Ranked = DiagnosisCandidate × Instant

module _ (sorted_set : List String → List String) where
  unfoldable pub candidate_of : Category → List String → Selected → Bool → Ranked
  unfolding total_weight newest
  candidate_of category all_gaps selected conflict = (
    record {
      category = category;
      score =
          if conflict
          then min 100 (total_weight selected) - 20
          else min 100 (total_weight selected);
      evidence_refs = map (λ (x : DiagnosisEvidence × ℕ). x.0.evidence_ref) selected;
      independent_evidence_types = length selected;
      data_gaps =
          sorted_set (if conflict then all_gaps ++ "conflicting_evidence" ∷ [] else all_gaps);
    },
    newest selected,
  )

  -- The candidates of the categories, in their order.
  unfoldable pub candidates_of : List Category → List String → List DiagnosisEvidence → List Ranked
  unfolding select_evidence candidate_of
  candidates_of [] all_gaps es = []
  candidates_of (c ∷ cs) all_gaps es =
      let rest = candidates_of cs all_gaps es in
      let (selected, conflict) = select_evidence (weights c) es ([], false) in
      if leb 1 (length selected) then candidate_of c all_gaps selected conflict ∷ rest else rest

-- One component of a key, and the components behind it.
abbrev pub before : ℕ → ℕ → Bool → Bool
before a b rest = ltb a b || (a == b && rest)

-- The first key is strictly below the second.
unfoldable pub ahead : Ranked → Ranked → Bool
ahead (a, s) (b, t) = before b.score a.score (
    before b.independent_evidence_types a.independent_evidence_types
      (before t s (ltb (priority a.category) (priority b.category))))

unfoldable pub insert : Ranked → List Ranked → List Ranked
unfolding ahead
insert x [] = x ∷ []
insert x (y ∷ ys) = let rest = insert x ys in if ahead y x then y ∷ rest else x ∷ y ∷ ys

-- `ranked_candidates.sort(...)`, which is stable
unfoldable pub rank : List Ranked → List Ranked
unfolding insert
rank [] = []
rank (x ∷ xs) = insert x (rank xs)

unfoldable pub first_three : List Ranked → List DiagnosisCandidate
first_three [] = []
first_three (a ∷ []) = a.0 ∷ []
first_three (a ∷ b ∷ []) = a.0 ∷ b.0 ∷ []
first_three (a ∷ b ∷ c ∷ _) = a.0 ∷ b.0 ∷ c.0 ∷ []

unfoldable pub confidence_of : Bool → List DiagnosisCandidate → Confidence
confidence_of enabled [] = insufficient
confidence_of enabled (lead ∷ _) =
    if enabled && leb 80 lead.score && leb 2 lead.independent_evidence_types
    then high
    else if leb 50 lead.score
    then medium
    else low

unfoldable pub all_data_gaps : List DiagnosisEvidence → List String
all_data_gaps [] = []
all_data_gaps (e ∷ es) = e.data_gaps ++ all_data_gaps es

unfoldable pub build_diagnosis :
    (List String → List String) → ℕ → List DiagnosisEvidence → Bool → DiagnosisResult
unfolding candidates_of rank first_three confidence_of all_data_gaps
build_diagnosis sorted_set incident_id evidences high_confidence_enabled =
    let all_gaps = sorted_set (all_data_gaps evidences) in
    let candidates = first_three (rank (candidates_of sorted_set categories all_gaps evidences)) in
    record {
      incident_id = incident_id;
      candidates = candidates;
      confidence = confidence_of high_confidence_enabled candidates;
      evidence_ids = map (λ (e : DiagnosisEvidence). e.evidence_ref) evidences;
      data_gaps = all_gaps;
    }
