-- ===== src/Prediction/Governance/Single.antt =====
-- What holds of the tables of backend/models.py about candidates after any sequence of operations.
use text.Mathlib.TextEquality.{eq_iff}
use disk_pulse.Prelude.{
  ℕ, ◌+◌, ◌≤◌, ◌<◌, String, ◌≡◌, ◌≢◌, refl, Bool, true, false, List, [], ◌∷◌, ◌++◌, arith, ◌==◌,
  Bool-cases, inl, inr, any, find, update_where, All, All-append, is_some,
}
use disk_pulse.Prediction.Db.{
  CapacityPredictionCandidate, CapacityPredictionEvaluation, Store, get_candidate_by_version,
  disable_candidates, is_window, has_candidate_evaluation, add_candidate_evaluation, add_candidate,
}
use disk_pulse.Prediction.Governance.{enable, switch_to, update_prediction_settings}
use disk_pulse.Prediction.Governance.Runs.{Call, run, run-keeps}

-- Every row before another is unlike it.
abbrev pub Pairwise {ℓ} : {A : Type ℓ} → (A → A → Type 0) → List A → Type 0
Pairwise R [] = Unit
Pairwise R (x ∷ xs) = All (R x) xs × Pairwise R xs

Pairwise-append_one {ℓ} :
    {A : Type ℓ} (R : A → A → Type 0) (xs : List A) (y : A)
    → Pairwise R xs
    → All (λ (x : A). R x y) xs
    → Pairwise R (xs ++ y ∷ [])
Pairwise-append_one R [] y h k = (tt, tt)
Pairwise-append_one R (x ∷ xs) y h k =
    (All-append (R x) xs (y ∷ []) h.0 (k.0, tt), Pairwise-append_one R xs y h.1 k.1)

-- The columns of a candidate that are unique: the primary key and the version.
abbrev pub key : CapacityPredictionCandidate → ℕ × String
key c = (c.id, c.version)

abbrev pub keys : List CapacityPredictionCandidate → List (ℕ × String)
keys [] = []
keys (c ∷ rows) = key c ∷ keys rows

abbrev pub Unlike : ℕ × String → ℕ × String → Type 0
Unlike k l = (k.0 ≢ l.0) × (k.1 ≢ l.1)

abbrev pub Elsewhere : CapacityPredictionEvaluation → CapacityPredictionEvaluation → Type 0
Elsewhere e f = is_window f.candidate_id f.window_start f.window_end e ≡ false

abbrev pub count : Bool → ℕ
count true = 1
count false = 0

-- How many candidates are enabled.
unfoldable pub enabled_count : List CapacityPredictionCandidate → ℕ
enabled_count [] = 0
enabled_count (c ∷ rows) = count c.enabled + enabled_count rows

abbrev pub Below : ℕ → ℕ × String → Type 0
Below n k = k.0 < n

pub record IsGoverned (s : Store) : Type 0 where
  pub unlike : Pairwise Unlike (keys s.candidates)
  pub below : All (Below s.next_candidate_id) (keys s.candidates)
  pub single : enabled_count s.candidates ≤ 1
  pub windows : Pairwise Elsewhere s.evaluations

keys-append_one :
    (rows : List CapacityPredictionCandidate) (d : CapacityPredictionCandidate)
    → keys (rows ++ d ∷ []) ≡ keys rows ++ key d ∷ []
keys-append_one [] d = refl
keys-append_one (c ∷ rows) d = rw (keys-append_one rows d)

-- A row with a new id and a new version.
new-Unlike :
    (n : ℕ) (version : String) (rows : List CapacityPredictionCandidate)
    → All (Below n) (keys rows)
    → is_some (get_candidate_by_version version rows) ≡ false
    → All (λ (k : ℕ × String). Unlike k (n, version)) (keys rows)
unfolding get_candidate_by_version find
new-Unlike n version [] h k = tt
new-Unlike n version (c ∷ rows) h k = (
  (λ e. omega (arith, h.0), λ e. ground (arith, eq_iff c.version version)),
  new-Unlike n version rows h.1 (ground arith),
)

Below-suc : (n : ℕ) (rows : List (ℕ × String)) → All (Below n) rows → All (Below (n + 1)) rows
Below-suc n [] h = tt
Below-suc n (c ∷ rows) h = (omega (arith, h.0), Below-suc n rows h.1)

enabled_count-append :
    (rows : List CapacityPredictionCandidate) (d : CapacityPredictionCandidate)
    → enabled_count (rows ++ d ∷ []) ≡ enabled_count rows + count d.enabled
unfolding enabled_count
enabled_count-append [] d = omega arith
enabled_count-append (c ∷ rows) d = omega (arith, enabled_count-append rows d)

add_candidate-IsGoverned :
    (version : String) (model : ℕ) (s : Store)
    → IsGoverned s
    → IsGoverned (add_candidate version model s).1
unfolding add_candidate
add_candidate-IsGoverned version model s g =
    elim (Bool-cases (is_some (get_candidate_by_version version s.candidates))) [
      | inl e ↦ rw (e, add_candidate) g
      | inr e ↦
          let n : ℕ = s.next_candidate_id in
          let old : List CapacityPredictionCandidate = s.candidates in
          rw (e, add_candidate)
            (record {
              unlike = rw keys-append_one (
                  Pairwise-append_one Unlike (keys old) (n, version) g.unlike
                    (new-Unlike n version old g.below e));
              below = rw keys-append_one (
                  All-append (Below (n + 1)) (keys old) ((n, version) ∷ [])
                    (Below-suc n (keys old) g.below) (omega arith, tt));
              single = rw enabled_count-append (omega (arith, g.single));
              windows = g.windows;
            })
    ]

new-Elsewhere :
    (f : CapacityPredictionEvaluation) (rows : List CapacityPredictionEvaluation)
    → has_candidate_evaluation f.candidate_id f.window_start f.window_end rows ≡ false
    → All (λ (e : CapacityPredictionEvaluation). Elsewhere e f) rows
unfolding has_candidate_evaluation any
new-Elsewhere f [] h = tt
new-Elsewhere f (e ∷ rows) h = (ground arith, new-Elsewhere f rows (ground arith))

add_candidate_evaluation-IsGoverned :
    (e : CapacityPredictionEvaluation) (s : Store)
    → IsGoverned s
    → IsGoverned (add_candidate_evaluation e s).1
unfolding add_candidate_evaluation
add_candidate_evaluation-IsGoverned e s g =
    elim (Bool-cases
      (has_candidate_evaluation e.candidate_id e.window_start e.window_end s.evaluations)) [
        | inl t ↦ rw (t, add_candidate_evaluation) g
        | inr t ↦
            rw (t, add_candidate_evaluation)
              (record {
                unlike = g.unlike;
                below = g.below;
                single = g.single;
                windows =
                    Pairwise-append_one Elsewhere s.evaluations e g.windows
                      (new-Elsewhere e s.evaluations t);
              })
      ]

-- The rows after `disable_candidates` and `candidate.enabled = True`.
switched : ℕ → List CapacityPredictionCandidate → List CapacityPredictionCandidate
switched n rows = enable n (disable_candidates rows)

keys-switched :
    (n : ℕ) (rows : List CapacityPredictionCandidate) → keys (switched n rows) ≡ keys rows
unfolding switched enable disable_candidates update_where
keys-switched n [] = refl
keys-switched n (c ∷ rows) = ground (arith, keys-switched n rows)

switched-absent :
    (n : ℕ) (version : String) (m : ℕ) (rows : List CapacityPredictionCandidate)
    → All (Unlike (m, version)) (keys rows)
    → m ≡ n
    → enabled_count (switched n rows) ≡ 0
unfolding switched enable disable_candidates enabled_count update_where
switched-absent n version m [] h same = refl
switched-absent n version m (c ∷ rows) h same =
    ground (arith, switched-absent n version m rows h.1 same, h.0.0)

switched-single :
    (n : ℕ) (rows : List CapacityPredictionCandidate)
    → Pairwise Unlike (keys rows)
    → enabled_count (switched n rows) ≤ 1
unfolding switched enable disable_candidates enabled_count update_where
switched-single n [] h = omega arith
switched-single n (c ∷ rows) h = elim (Bool-cases (c.id == n)) [
  | inl e ↦
      let same : c.id ≡ n = ground arith in
      rw e (omega (arith, switched-absent n c.version c.id rows h.0 same))
  | inr e ↦ rw e (omega (arith, switched-single n rows h.1))
]

switch_to-IsGoverned : (n : ℕ) (s : Store) → IsGoverned s → IsGoverned (switch_to n s)
unfolding switch_to switched
switch_to-IsGoverned n s g = record {
  unlike = rw (keys-switched n s.candidates) g.unlike;
  below = rw (keys-switched n s.candidates) g.below;
  single = switched-single n s.candidates g.unlike;
  windows = g.windows;
}

-- After any sequence of operations, also those that raise, whatever other transactions commit
-- meanwhile: at most one candidate is enabled, no two candidates have one id or one version, the next
-- id is new, and no two evaluations are of one candidate and one window, if this holds at the start.
pub run-IsGoverned : (calls : List Call) (s : Store) → IsGoverned s → IsGoverned (run calls s)
unfolding update_prediction_settings
run-IsGoverned calls s g =
    run-keeps IsGoverned add_candidate-IsGoverned add_candidate_evaluation-IsGoverned
      switch_to-IsGoverned
      (λ user_id visible s g. record {
        unlike = g.unlike;
        below = g.below;
        single = g.single;
        windows = g.windows;
      })
      (λ models s g. record {
        unlike = g.unlike;
        below = g.below;
        single = g.single;
        windows = g.windows;
      })
      calls s g
