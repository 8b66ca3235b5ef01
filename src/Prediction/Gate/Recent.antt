-- ===== src/Prediction/Gate/Recent.antt =====
-- What the gate of backend/services/capacityPredictionGovernanceService.py promises of the evaluations.
use mathlib.Core.List.{Perm}
use mathlib.Core.List.Perm
use disk_pulse.Prelude.{
  ℕ, ◌*◌, ◌-◌, ◌≤◌, ◌<◌, zero, suc, ◌≡◌, refl, inl, inr, true, false, List, [], ◌∷◌, ◌++◌, arith,
  leb, length, any, all, All, Bool-cases,
}
use disk_pulse.Prediction.Db.{CapacityPredictionEvaluation, insert_by_end, sort_by_end}
use disk_pulse.Prediction.Gate.{
  same_window, distinct_windows, drop, last_three, baseline_sum, candidate_sum,
  recent_rows_meet_gate, candidate_meets_activation_gate,
}

insert_by_end-perm :
    (x : CapacityPredictionEvaluation) (l : List CapacityPredictionEvaluation)
    → Perm (insert_by_end x l) (x ∷ l)
unfolding insert_by_end
insert_by_end-perm x [] = Perm.rfl
insert_by_end-perm x (y ∷ ys) = elim (Bool-cases (leb x.window_end y.window_end)) [
  | inl e ↦ rw (e, insert_by_end) Perm.rfl
  | inr e ↦
      rw (e, insert_by_end) (Perm.trans (Perm.cons y (insert_by_end-perm x ys)) (Perm.swap x y ys))
]

pub sort_by_end-perm : (l : List CapacityPredictionEvaluation) → Perm (sort_by_end l) l
unfolding sort_by_end
sort_by_end-perm [] = Perm.rfl
sort_by_end-perm (x ∷ xs) =
    Perm.trans (insert_by_end-perm x (sort_by_end xs)) (Perm.cons x (sort_by_end-perm xs))

abbrev pub EndsBy : ℕ → CapacityPredictionEvaluation → Type 0
EndsBy t e = t ≤ e.window_end

abbrev pub IsSorted : List CapacityPredictionEvaluation → Type 0
IsSorted [] = Unit
IsSorted (x ∷ xs) = All (EndsBy x.window_end) xs × IsSorted xs

All-insert :
    (t : ℕ) (x : CapacityPredictionEvaluation) (l : List CapacityPredictionEvaluation)
    → t ≤ x.window_end
    → All (EndsBy t) l
    → All (EndsBy t) (insert_by_end x l)
unfolding insert_by_end
All-insert t x [] h k = (h, tt)
All-insert t x (y ∷ ys) h k = elim (Bool-cases (leb x.window_end y.window_end)) [
  | inl e ↦ rw (e, insert_by_end) (h, k)
  | inr e ↦ rw (e, insert_by_end) (k.0, All-insert t x ys h k.1)
]

All-weaken :
    (t u : ℕ) (l : List CapacityPredictionEvaluation) → t ≤ u → All (EndsBy u) l → All (EndsBy t) l
All-weaken t u [] h k = tt
All-weaken t u (x ∷ xs) h k = (omega (arith, h, k.0), All-weaken t u xs h k.1)

insert_by_end-IsSorted :
    (x : CapacityPredictionEvaluation) (l : List CapacityPredictionEvaluation)
    → IsSorted l
    → IsSorted (insert_by_end x l)
unfolding insert_by_end
insert_by_end-IsSorted x [] s = (tt, tt)
insert_by_end-IsSorted x (y ∷ ys) s = elim (Bool-cases (leb x.window_end y.window_end)) [
  | inl e ↦
      let le : x.window_end ≤ y.window_end = ground arith in
      rw (e, insert_by_end) ((le, All-weaken x.window_end y.window_end ys le s.0), s)
  | inr e ↦
      rw (e, insert_by_end)
        (All-insert y.window_end x ys (ground arith) s.0, insert_by_end-IsSorted x ys s.1)
]

sort_by_end-IsSorted : (l : List CapacityPredictionEvaluation) → IsSorted (sort_by_end l)
unfolding sort_by_end
sort_by_end-IsSorted [] = tt
sort_by_end-IsSorted (x ∷ xs) = insert_by_end-IsSorted x (sort_by_end xs) (sort_by_end-IsSorted xs)

-- What is before the last ones.
take : ℕ → List CapacityPredictionEvaluation → List CapacityPredictionEvaluation
take zero rows = []
take (suc n) [] = []
take (suc n) (e ∷ rows) = e ∷ take n rows

take-append-drop : (n : ℕ) (l : List CapacityPredictionEvaluation) → take n l ++ drop n l ≡ l
unfolding take drop
take-append-drop zero l = refl
take-append-drop (suc n) [] = refl
take-append-drop (suc n) (x ∷ xs) = rw (take-append-drop n xs)

length-drop : (n : ℕ) (l : List CapacityPredictionEvaluation) → length (drop n l) ≡ length l - n
unfolding drop
length-drop zero l = omega arith
length-drop (suc n) [] = omega arith
length-drop (suc n) (x ∷ xs) = omega (arith, length-drop n xs)

-- Each row of the second list ends no earlier than each of the first.
abbrev pub NoLater : List CapacityPredictionEvaluation → List CapacityPredictionEvaluation → Type 0
NoLater older recent =
    All (λ (e : CapacityPredictionEvaluation). All (EndsBy e.window_end) recent) older

All-drop :
    (t n : ℕ) (l : List CapacityPredictionEvaluation) → All (EndsBy t) l → All (EndsBy t) (drop n l)
unfolding drop
All-drop t zero l h = h
All-drop t (suc n) [] h = tt
All-drop t (suc n) (x ∷ xs) h = All-drop t n xs h.1

take-drop-NoLater :
    (n : ℕ) (l : List CapacityPredictionEvaluation) → IsSorted l → NoLater (take n l) (drop n l)
unfolding take drop
take-drop-NoLater zero l s = tt
take-drop-NoLater (suc n) [] s = tt
take-drop-NoLater (suc n) (x ∷ xs) s = (All-drop x.window_end n xs s.0, take-drop-NoLater n xs s.1)

length-insert :
    (x : CapacityPredictionEvaluation) (l : List CapacityPredictionEvaluation)
    → length (insert_by_end x l) ≡ suc (length l)
unfolding insert_by_end
length-insert x [] = refl
length-insert x (y ∷ ys) = ground (arith, length-insert x ys)

length-sort_by_end : (l : List CapacityPredictionEvaluation) → length (sort_by_end l) ≡ length l
unfolding sort_by_end
length-sort_by_end [] = refl
length-sort_by_end (x ∷ xs) = omega (arith, length-insert x (sort_by_end xs), length-sort_by_end xs)

-- The two evaluations are not of one window.
abbrev pub Apart : CapacityPredictionEvaluation → CapacityPredictionEvaluation → Type 0
Apart e f = ¬ ((e.window_start ≡ f.window_start) × (e.window_end ≡ f.window_end))

abbrev pub AllApart : List CapacityPredictionEvaluation → Type 0
AllApart [] = Unit
AllApart (e ∷ rows) = All (Apart e) rows × AllApart rows

any-Apart :
    (e : CapacityPredictionEvaluation) (rows : List CapacityPredictionEvaluation)
    → any (same_window e) rows ≡ false
    → All (Apart e) rows
unfolding any
any-Apart e [] h = tt
any-Apart e (f ∷ rows) h = (λ p. ground arith, any-Apart e rows (ground arith))

distinct_windows-AllApart :
    (rows : List CapacityPredictionEvaluation) → distinct_windows rows ≡ true → AllApart rows
unfolding distinct_windows
distinct_windows-AllApart [] h = tt
distinct_windows-AllApart (e ∷ rows) h =
    (any-Apart e rows (ground arith), distinct_windows-AllApart rows (ground arith))

all-risk :
    (rows : List CapacityPredictionEvaluation)
    → all (λ (e : CapacityPredictionEvaluation). e.risk_coverage_ok) rows ≡ true
    → All (λ (e : CapacityPredictionEvaluation). e.risk_coverage_ok ≡ true) rows
unfolding all
all-risk [] h = tt
all-risk (e ∷ rows) h = (ground arith, all-risk rows (ground arith))

-- Three evaluations cover the risk and are, on average, a tenth better than the baseline.
pub record IsBetter (recent : List CapacityPredictionEvaluation) : Type 0 where
  pub three : length recent ≡ 3
  pub covered : All (λ (e : CapacityPredictionEvaluation). e.risk_coverage_ok ≡ true) recent
  pub measured : 0 < baseline_sum recent
  pub better : candidate_sum recent * 10 ≤ baseline_sum recent * 9

recent_rows-IsBetter :
    (recent : List CapacityPredictionEvaluation)
    → length recent ≡ 3
    → recent_rows_meet_gate recent ≡ true
    → IsBetter recent
unfolding recent_rows_meet_gate
recent_rows-IsBetter recent three h = record {
  three = three;
  covered = all-risk recent (ground arith);
  measured = ground arith;
  better = ground arith;
}

last_three-IsBetter :
    (rows : List CapacityPredictionEvaluation)
    → 3 ≤ length rows
    → recent_rows_meet_gate (last_three (sort_by_end rows)) ≡ true
    → (older : List CapacityPredictionEvaluation) × (recent : List CapacityPredictionEvaluation)
      × Perm (older ++ recent) rows
      × NoLater older recent
      × IsBetter recent
unfolding last_three
last_three-IsBetter rows enough h =
    let sorted : List CapacityPredictionEvaluation = sort_by_end rows in
    let n : ℕ = length sorted - 3 in
    (
      take n sorted,
      drop n sorted,
      rw (take-append-drop n sorted) (sort_by_end-perm rows),
      take-drop-NoLater n sorted (sort_by_end-IsSorted rows),
      recent_rows-IsBetter (drop n sorted)
          (omega (arith, length-drop n sorted, length-sort_by_end rows)) h,
    )

-- If the gate lets a candidate through, no two of its evaluations are of one window, and they fall into
-- older ones and three that end no earlier, all three of which cover the risk, whose mean error of the
-- baseline is more than zero and whose mean error of the candidate is at most nine tenths of it.
pub candidate_meets_activation_gate-IsBetter :
    (rows : List CapacityPredictionEvaluation)
    → candidate_meets_activation_gate rows ≡ true
    → AllApart rows
      × ((older : List CapacityPredictionEvaluation) × (recent : List CapacityPredictionEvaluation)
          × Perm (older ++ recent) rows
          × NoLater older recent
          × IsBetter recent)
unfolding candidate_meets_activation_gate
candidate_meets_activation_gate-IsBetter rows h = (
  distinct_windows-AllApart rows (ground arith),
  last_three-IsBetter rows (ground arith) (ground arith),
)
