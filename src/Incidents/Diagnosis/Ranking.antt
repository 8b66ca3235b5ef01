-- ===== src/Incidents/Diagnosis/Ranking.antt =====
-- The candidates of a diagnosis are the first of a ranking, in an order that
-- has no cycles.
use mathlib.Core.List.{Perm}
use mathlib.Core.List.Perm
use disk_pulse.Prelude.{
  ℕ, String, ◌≡◌, refl, Bool, true, false, List, [], ◌∷◌, arith, ltb, All, Bool-cases, inl, inr,
}
use disk_pulse.Incidents.Diagnosis.{
  DiagnosisEvidence, Ranked, priority, before, ahead, insert, rank, first_three, candidates_of,
  categories, all_data_gaps, build_diagnosis,
}

-- Nothing stands behind something that it is ahead of.
abbrev pub IsRanked : List Ranked → Type 0
IsRanked [] = Unit
IsRanked (x ∷ xs) = All (λ (y : Ranked). ahead y x ≡ false) xs × IsRanked xs

before_asymm :
    (a b : ℕ) (p q : Bool) → (p ≡ true → q ≡ false) → before a b p ≡ true → before b a q ≡ false
before_asymm a b p q h e = ground (arith, h, e)

before_trans :
    (a b c : ℕ) (p q r : Bool)
    → (p ≡ false → q ≡ false → r ≡ false)
    → before a b p ≡ false
    → before b c q ≡ false
    → before a c r ≡ false
before_trans a b c p q r h e f = ground (arith, h, e, f)

ltb_trans : (a b c : ℕ) → ltb b a ≡ false → ltb c b ≡ false → ltb c a ≡ false
ltb_trans a b c e f = ground (arith, e, f)

ltb_asymm : (a b : ℕ) → ltb a b ≡ true → ltb b a ≡ false
ltb_asymm a b e = ground (arith, e)

ahead_asymm : (x y : Ranked) → ahead y x ≡ true → ahead x y ≡ false
unfolding ahead
ahead_asymm (a, s) (b, t) h =
    before_asymm a.score b.score _ _
      (before_asymm a.independent_evidence_types b.independent_evidence_types _ _
        (before_asymm s t _ _ (ltb_asymm (priority b.category) (priority a.category))))
      h

not_ahead_trans : (x y z : Ranked) → ahead y x ≡ false → ahead z y ≡ false → ahead z x ≡ false
unfolding ahead
not_ahead_trans (a, s) (b, t) (c, u) h k =
    before_trans a.score b.score c.score _ _ _
      (before_trans a.independent_evidence_types b.independent_evidence_types
        c.independent_evidence_types _ _ _
        (before_trans s t u _ _ _
          (ltb_trans (priority a.category) (priority b.category) (priority c.category))))
      h k

insert-perm : (x : Ranked) (l : List Ranked) → Perm (insert x l) (x ∷ l)
unfolding insert
insert-perm x [] = Perm.rfl
insert-perm x (y ∷ ys) = elim (Bool-cases (ahead y x)) [
  | inl e ↦ rw (e, insert) (Perm.trans (Perm.cons y (insert-perm x ys)) (Perm.swap x y ys))
  | inr e ↦ rw (e, insert) Perm.rfl
]

pub All-insert :
    (P : Ranked → Type 0) (x : Ranked) (l : List Ranked) → P x → All P l → All P (insert x l)
unfolding insert
All-insert P x [] h k = (h, tt)
All-insert P x (y ∷ ys) h k = elim (Bool-cases (ahead y x)) [
  | inl e ↦ rw (e, insert) (k.0, All-insert P x ys h k.1)
  | inr e ↦ rw (e, insert) (h, k)
]

All-trans :
    (x y : Ranked) (l : List Ranked)
    → ahead y x ≡ false
    → All (λ (z : Ranked). ahead z y ≡ false) l
    → All (λ (z : Ranked). ahead z x ≡ false) l
All-trans x y [] e h = tt
All-trans x y (z ∷ zs) e h = (not_ahead_trans x y z e h.0, All-trans x y zs e h.1)

insert-IsRanked : (x : Ranked) (l : List Ranked) → IsRanked l → IsRanked (insert x l)
unfolding insert
insert-IsRanked x [] h = (tt, tt)
insert-IsRanked x (y ∷ ys) h = elim (Bool-cases (ahead y x)) [
  | inl e ↦
      rw (e, insert)
        (
          All-insert (λ (z : Ranked). ahead z y ≡ false) x ys (ahead_asymm x y e) h.0,
          insert-IsRanked x ys h.1,
        )
  | inr e ↦ rw (e, insert) ((e, All-trans x y ys e h.0), h)
]

rank-IsRanked : (l : List Ranked) → IsRanked (rank l)
unfolding rank
rank-IsRanked [] = tt
rank-IsRanked (x ∷ xs) = insert-IsRanked x (rank xs) (rank-IsRanked xs)

rank-perm : (l : List Ranked) → Perm (rank l) l
unfolding rank
rank-perm [] = Perm.rfl
rank-perm (x ∷ xs) = Perm.trans (insert-perm x (rank xs)) (Perm.cons x (rank-perm xs))

-- The candidates of a diagnosis are the first three of a rearrangement of all candidates in which none stands
-- behind one that it is ahead of: by score, then by the number of types, then by the newest evidence, and
-- last by the priority of the category.
pub build_diagnosis-IsRanked :
    (sorted_set : List String → List String) (incident_id : ℕ) (evidences : List DiagnosisEvidence)
    (enabled : Bool)
    → (ranked : List Ranked) × IsRanked ranked
      × Perm ranked
          (candidates_of sorted_set categories (sorted_set (all_data_gaps evidences)) evidences)
      × ((build_diagnosis sorted_set incident_id evidences enabled).candidates ≡ first_three ranked)
unfolding build_diagnosis
build_diagnosis-IsRanked sorted_set incident_id evidences enabled = (
  rank (candidates_of sorted_set categories (sorted_set (all_data_gaps evidences)) evidences),
  rank-IsRanked
      (candidates_of sorted_set categories (sorted_set (all_data_gaps evidences)) evidences),
  rank-perm (candidates_of sorted_set categories (sorted_set (all_data_gaps evidences)) evidences),
  refl,
)
