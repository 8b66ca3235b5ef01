-- ===== src/Prelude/Lists.antt =====
-- Tables as lists of rows: the queries and updates that the services make, over Boolean tests.
use Prim.Native.Nat.{ℕ, suc, ◌+◌}
use mathlib.Core.Path.{◌≡◌, refl}
use mathlib.Core.Logic.{◌⊎◌, inl, inr}
use mathlib.Core.Option
use mathlib.Core.Bool.{Bool, true, false, ◌&&◌, ◌||◌}
use mathlib.Core.Option.{Option, none, some}
use mathlib.Core.List.{List, [], ◌∷◌, ◌++◌}
use native.Mathlib.Omega.{arith}
use disk_pulse.Prelude.Tests.{if◌then◌else◌, Bool-cases}

module _ {ℓ} {A : Type ℓ} where
  abbrev pub length : List A → ℕ
  length [] = 0
  length (x ∷ xs) = suc (length xs)

  -- The rows that pass a test, in order.
  unfoldable pub select : (A → Bool) → List A → List A
  select p [] = []
  select p (x ∷ xs) = let rest = select p xs in if p x then x ∷ rest else rest

  -- The first row that passes a test.
  unfoldable pub find : (A → Bool) → List A → Option A
  find p [] = none
  find p (x ∷ xs) = if p x then some x else find p xs

  unfoldable pub any : (A → Bool) → List A → Bool
  any p [] = false
  any p (x ∷ xs) = p x || any p xs

  unfoldable pub all : (A → Bool) → List A → Bool
  all p [] = true
  all p (x ∷ xs) = p x && all p xs

  -- The rows that pass a test are written anew.
  unfoldable pub update_where : (A → Bool) → (A → A) → List A → List A
  update_where p f [] = []
  update_where p f (x ∷ xs) = (if p x then f x else x) ∷ update_where p f xs

  unfoldable pub delete_where : (A → Bool) → List A → List A
  delete_where p [] = []
  delete_where p (x ∷ xs) = let rest = delete_where p xs in if p x then rest else x ∷ rest

-- Every element satisfies a predicate.
abbrev pub All {ℓ κ} : {A : Type ℓ} → (A → Type κ) → List A → Type κ
All P [] = Unit
All P (x ∷ xs) = P x × All P xs

module _ {ℓ κ} {A : Type ℓ} (P : A → Type κ) where
  pub All-append : (xs ys : List A) → All P xs → All P ys → All P (xs ++ ys)
  All-append [] ys hx hy = hy
  All-append (x ∷ xs) ys hx hy = (hx.0, All-append xs ys hx.1 hy)

module _ {ℓ} {A : Type ℓ} where
  pub length-append : (xs ys : List A) → length (xs ++ ys) ≡ length xs + length ys
  length-append [] ys = omega arith
  length-append (x ∷ xs) ys = omega (arith, length-append xs ys)

module _ {ℓ} {A : Type ℓ} (p q : A → Bool) (f : A → A) where
  -- A query by `q` after an update that does not change what `q` sees.
  pub find-update_where :
      ((x : A) → p x ≡ true → q (f x) ≡ q x)
      → (xs : List A)
      → find q (update_where p f xs) ≡ Option.map (λ x. if p x then f x else x) (find q xs)
  unfolding find update_where
  find-update_where same [] = refl
  find-update_where same (x ∷ xs) = ground (arith, same x, find-update_where same xs)

module _ {ℓ κ} {A : Type ℓ} (P : A → Type κ) (p : A → Bool) where
  pub All-update_where :
      (f : A → A)
      → ((x : A) → P x → p x ≡ true → P (f x))
      → (xs : List A) → All P xs
      → All P (update_where p f xs)
  unfolding update_where
  All-update_where f keep [] h = tt
  All-update_where f keep (x ∷ xs) h = (one (Bool-cases (p x)), All-update_where f keep xs h.1)
    where
      one : (p x ≡ true) ⊎ (p x ≡ false) → P (if p x then f x else x)
      one (inl e) = rw e (keep x h.0 e)
      one (inr e) = rw e h.0

  pub All-find : (xs : List A) {x : A} → All P xs → find p xs ≡ some x → P x × (p x ≡ true)
  unfolding find
  All-find [] h e = cc
  All-find (y ∷ xs) {x} h e = elim (Bool-cases (p y)) [
    | inl t ↦ let same : y ≡ x = ground arith in (rw same at h.0, rw same at t)
    | inr t ↦ All-find xs h.1 (ground arith)
  ]

  pub All-delete_where : (xs : List A) → All P xs → All P (delete_where p xs)
  unfolding delete_where
  All-delete_where [] h = tt
  All-delete_where (x ∷ xs) h = elim (Bool-cases (p x)) [
    | inl e ↦ rw e (All-delete_where xs h.1)
    | inr e ↦ rw e (h.0, All-delete_where xs h.1)
  ]

module _ {ℓ} {A : Type ℓ} (p : A → Bool) where
  pub find-eq_some : (xs : List A) {x : A} → find p xs ≡ some x → p x ≡ true
  unfolding find
  find-eq_some [] e = cc
  find-eq_some (y ∷ xs) {x} e = ground (arith, find-eq_some xs {x = x})

module _ {ℓ} {A : Type ℓ} (q : A → Bool) where
  pub find-append_one :
      (xs : List A) (y : A)
      → find q (xs ++ y ∷ [])
        ≡ elim (find q xs) [ some z ↦ some z | none ↦ if q y then some y else none ]
  unfolding find
  find-append_one [] y = refl
  find-append_one (x ∷ xs) y = ground (arith, find-append_one xs y)

  -- A query after the rows that it does not see were deleted, or all that it sees.
  pub find-delete_where_ne :
      (p : A → Bool)
      → ((x : A) → q x ≡ true → p x ≡ false)
      → (xs : List A) → find q (delete_where p xs) ≡ find q xs
  unfolding find delete_where
  find-delete_where_ne p apart [] = refl
  find-delete_where_ne p apart (x ∷ xs) = ground (arith, apart x, find-delete_where_ne p apart xs)

  pub find-delete_where_self : (xs : List A) → find q (delete_where q xs) ≡ none
  unfolding find delete_where
  find-delete_where_self [] = refl
  find-delete_where_self (x ∷ xs) = ground (arith, find-delete_where_self xs)

  pub find-delete_where-none :
      (p : A → Bool) (xs : List A) → find q xs ≡ none → find q (delete_where p xs) ≡ none
  unfolding find delete_where
  find-delete_where-none p [] h = refl
  find-delete_where-none p (x ∷ xs) h = ground (arith, find-delete_where-none p xs)

module _ {ℓ} {A : Type ℓ} (p : A → Bool) where
  pub select-select : (xs : List A) → select p (select p xs) ≡ select p xs
  unfolding select
  select-select [] = refl
  select-select (x ∷ xs) = ground (arith, select-select xs)
