-- ===== src/Incidents/Diagnosis/Bounds.antt =====
-- What a candidate of a diagnosis, and a high confidence, rest on.
use disk_pulse.Prelude.{
  ℕ, suc, ◌+◌, ◌-◌, ◌≤◌, String, ◌≡◌, Bool, true, false, List, [], ◌∷◌, arith, leb, length, All,
  min, ◌||◌, Bool-cases, Option-cases, inl, inr, if◌then◌else◌,
}
use disk_pulse.Incidents.Db.{Category}
use disk_pulse.Incidents.Diagnosis.{
  DiagnosisEvidence, DiagnosisCandidate, Ranked, Selected, rank, first_three, confidence_of, high,
  candidates_of, candidate_of, categories, all_data_gaps, build_diagnosis, select_evidence, put,
  weight_of, weights, total_weight,
}
use disk_pulse.Incidents.Diagnosis.Ranking.{All-insert}

put-length : (e : DiagnosisEvidence) (w : ℕ) (s : Selected) → length (put e w s) ≤ suc (length s)
unfolding put
put-length e w [] = omega arith
put-length e w ((f, v) ∷ rest) = ground (arith, put-length e w rest)

select_evidence-length :
    (ws : List (String × ℕ)) (es : List DiagnosisEvidence) (s : Selected) (conflict : Bool)
    → length (select_evidence ws es (s, conflict)).0 ≤ length s + length es
unfolding select_evidence
select_evidence-length ws [] s conflict = omega arith
select_evidence-length ws (e ∷ es) s conflict = elim (Option-cases (weight_of e.evidence_type ws)) [
  | inl h ↦ rw (h, select_evidence) (omega (arith, select_evidence-length ws es s conflict))
  | inr (w, h) ↦
      rw (h, select_evidence)
        (omega (
          arith,
          put-length e w s,
          select_evidence-length ws es (put e w s) (conflict || e.conflicting),
        ))
]

-- A score is at most one, and the types are no more than the pieces of evidence.
abbrev pub IsBounded : List DiagnosisEvidence → DiagnosisCandidate → Type 0
IsBounded es c = (c.score ≤ 100) × (c.independent_evidence_types ≤ length es)

candidates_of-IsBounded :
    (sorted_set : List String → List String) (cs : List Category) (gaps : List String)
    (es : List DiagnosisEvidence)
    → All (λ (x : Ranked). IsBounded es x.0) (candidates_of sorted_set cs gaps es)
unfolding candidates_of candidate_of
candidates_of-IsBounded sorted_set [] gaps es = tt
candidates_of-IsBounded sorted_set (c ∷ cs) gaps es =
    elim (Bool-cases (leb 1 (length (select_evidence (weights c) es ([], false)).0))) [
      | inr h ↦ rw (h, candidates_of) (candidates_of-IsBounded sorted_set cs gaps es)
      | inl h ↦
          rw (h, candidates_of)
            (
              (
                score_lem (select_evidence (weights c) es ([], false)).1
                    (total_weight (select_evidence (weights c) es ([], false)).0),
                omega (arith, select_evidence-length (weights c) es [] false),
              ),
              candidates_of-IsBounded sorted_set cs gaps es,
            )
    ]
  where
    score_lem : (conflict : Bool) (n : ℕ) → (if conflict then min 100 n - 20 else min 100 n) ≤ 100
    score_lem true n = omega arith
    score_lem false n = omega arith

All-rank : (P : Ranked → Type 0) (l : List Ranked) → All P l → All P (rank l)
unfolding rank
All-rank P [] h = tt
All-rank P (x ∷ xs) h = All-insert P x (rank xs) h.0 (All-rank P xs h.1)

All-first_three :
    (P : DiagnosisCandidate → Type 0) (l : List Ranked)
    → All (λ (x : Ranked). P x.0) l
    → All P (first_three l)
unfolding first_three
All-first_three P [] h = tt
All-first_three P (a ∷ []) h = (h.0, tt)
All-first_three P (a ∷ b ∷ []) h = (h.0, (h.1.0, tt))
All-first_three P (a ∷ b ∷ c ∷ rest) h = (h.0, (h.1.0, (h.1.1.0, tt)))

confidence_of-high :
    (enabled : Bool) (es : List DiagnosisEvidence) (cs : List DiagnosisCandidate)
    → All (IsBounded es) cs
    → confidence_of enabled cs ≡ high
    → (enabled ≡ true) × (2 ≤ length es)
unfolding confidence_of
confidence_of-high enabled es [] h e = cc
confidence_of-high enabled es (c ∷ cs) h e = (ground (arith, e), ground (arith, e, h.0.1))

-- Every candidate has a score of at most one, and no more types of evidence than there are pieces of evidence.
pub build_diagnosis-IsBounded :
    (sorted_set : List String → List String) (incident_id : ℕ) (evidences : List DiagnosisEvidence)
    (enabled : Bool)
    → All
        (IsBounded evidences)
        (build_diagnosis sorted_set incident_id evidences enabled).candidates
unfolding build_diagnosis
build_diagnosis-IsBounded sorted_set incident_id evidences enabled =
    let all =
      candidates_of sorted_set categories (sorted_set (all_data_gaps evidences)) evidences in
    All-first_three (IsBounded evidences) (rank all) (
      All-rank (λ (x : Ranked). IsBounded evidences x.0) all
        (candidates_of-IsBounded sorted_set categories (sorted_set (all_data_gaps evidences))
          evidences))

-- A high confidence is given only where it is enabled and there are two pieces of evidence or more.
pub build_diagnosis-high :
    (sorted_set : List String → List String) (incident_id : ℕ) (evidences : List DiagnosisEvidence)
    (enabled : Bool)
    → (build_diagnosis sorted_set incident_id evidences enabled).confidence ≡ high
    → (enabled ≡ true) × (2 ≤ length evidences)
unfolding build_diagnosis
build_diagnosis-high sorted_set incident_id evidences enabled h =
    confidence_of-high enabled evidences
      (build_diagnosis sorted_set incident_id evidences enabled).candidates
      (build_diagnosis-IsBounded sorted_set incident_id evidences enabled) h
