-- ===== src/Audit/Service/Pages.antt =====
-- The pages of a list.
use disk_pulse.Prelude.{
  ℕ, zero, suc, ◌+◌, ◌-◌, ◌*◌, ◌≤◌, ◌≡◌, refl, ap, ◌∙◌, List, [], ◌∷◌, ◌++◌, arith, length, select,
  All,
}
use disk_pulse.Audit.Service.{AuditEvent, Filter, take, drop, admits, page_of, list_audit_events}

module _ {Payload : Type 0} where
  pub take-length : (n : ℕ) (xs : List (AuditEvent Payload)) → length (take n xs) ≤ n
  unfolding take
  take-length zero xs = omega arith
  take-length (suc n) [] = omega arith
  take-length (suc n) (x ∷ xs) = omega (arith, take-length n xs)

  take-append_drop :
      (m n : ℕ) (xs : List (AuditEvent Payload)) → take m xs ++ take n (drop m xs) ≡ take (m + n) xs
  unfolding take drop
  take-append_drop zero n xs = let e : zero + n ≡ n = omega arith in rw e refl
  take-append_drop (suc m) zero [] = let e : suc m + zero ≡ suc m = omega arith in rw e refl
  take-append_drop (suc m) (suc n) [] =
      let e : suc m + suc n ≡ suc (m + suc n) = omega arith in rw e refl
  take-append_drop (suc m) n (x ∷ xs) =
      let e : suc m + n ≡ suc (m + n) = omega arith in
      rw e (ap (λ ys. x ∷ ys) (take-append_drop m n xs))

  take_all : (n : ℕ) (xs : List (AuditEvent Payload)) → length xs ≤ n → take n xs ≡ xs
  unfolding take
  take_all zero [] h = refl
  take_all (suc n) [] h = refl
  take_all zero (x ∷ xs) h = ground arith
  take_all (suc n) (x ∷ xs) h = ap (λ ys. x ∷ ys) (take_all n xs (omega (arith, h)))

  module _ (order_by : List (AuditEvent Payload) → List (AuditEvent Payload))
      (rows : List (AuditEvent Payload)) (size : ℕ) (f : Filter) where
    -- The first pages of a list, one after the other.
    unfoldable pub pages : ℕ → List (AuditEvent Payload)
    unfolding list_audit_events
    pages zero = []
    pages (suc n) = pages n ++ (list_audit_events order_by rows (suc n) size f).0

    pages-take : (n : ℕ) → pages n ≡ take (n * size) (order_by (select (admits f) rows))
    unfolding pages page_of take list_audit_events
    pages-take zero = let e : zero * size ≡ zero = omega arith in rw e refl
    pages-take (suc n) =
        let e : (suc n - 1) * size ≡ n * size = ap (λ m. m * size) (omega arith) in
        let g : n * size + size ≡ suc n * size = grind arith in
        rw (e, ← g, pages-take n)
          (take-append_drop (n * size) size (order_by (select (admits f) rows)))

    -- The pages up to any that reaches the total, put together, are all the matching rows in the order of
    -- the database: no row is lost between pages, and none is shown twice.
    pub pages_complete :
        (n page : ℕ)
        → length (order_by (select (admits f) rows)) ≡ length (select (admits f) rows)
        → (list_audit_events order_by rows page size f).1 ≤ n * size
        → pages n ≡ order_by (select (admits f) rows)
    unfolding list_audit_events
    pages_complete n page same enough =
        pages-take n ∙ take_all (n * size) (order_by (select (admits f) rows)) (rw same enough)

  pub All-take :
      (P : AuditEvent Payload → Type 0) (n : ℕ) (xs : List (AuditEvent Payload))
      → All P xs
      → All P (take n xs)
  unfolding take
  All-take P zero xs h = tt
  All-take P (suc n) [] h = tt
  All-take P (suc n) (x ∷ xs) h = (h.0, All-take P n xs h.1)

  pub All-drop :
      (P : AuditEvent Payload → Type 0) (n : ℕ) (xs : List (AuditEvent Payload))
      → All P xs
      → All P (drop n xs)
  unfolding drop
  All-drop P zero xs h = h
  All-drop P (suc n) [] h = tt
  All-drop P (suc n) (x ∷ xs) h = All-drop P n xs h.1
