-- ===== src/Audit/Redaction/Safe.antt =====
-- What a redaction leaves is safe to show.
use Prim.Native.String.{[] as nil, ◌∷◌ as cons}
use disk_pulse.Prelude.{
  ℕ, suc, String, ◌≡◌, refl, Bool, true, false, Option, some, arith, if◌then◌else◌, Bool-cases, inl,
  inr,
}
use disk_pulse.Prelude.Text.{prefix, prefix-prefix}
use disk_pulse.Audit.Redaction.{
  Python, Value, Values, Entries, null, boolean, number, text, date, object, list, dict, no_values,
  value, no_entries, entry, redacted, is_path, is_hidden, veil, redact_shown, redact_values,
  redact_entries,
}

module _ {Date Object : Type 0} (python : Python Date Object) where
  -- No text is a path or longer than 512 characters, and nothing stands under a key to hide but the
  -- mark. A list has the key that it stands under.
  unfoldable mutual
    pub IsShown : Option String → Value Date Object → Type 0
    IsShown key null = Unit
    IsShown key (boolean b) = Unit
    IsShown key (number n) = Unit
    IsShown key (text s) = (is_path python s ≡ false) × (prefix 512 s ≡ s)
    IsShown key (date d) = ⊥
    IsShown key (object o) = ⊥
    IsShown key (list vs) = AreSafe key vs
    IsShown key (dict es) = AreSafeEntries es

    pub AreSafe : Option String → Values Date Object → Type 0
    AreSafe key no_values = Unit
    AreSafe key (value v vs) =
        IsShown key v × (is_hidden python key ≡ true → v ≡ text redacted) × AreSafe key vs

    pub AreSafeEntries : Entries Date Object → Type 0
    AreSafeEntries no_entries = Unit
    AreSafeEntries (entry k v es) =
        IsShown (some k) v
        × (is_hidden python (some k) ≡ true → v ≡ text redacted)
        × AreSafeEntries es

  -- No date and no other object stands in the value.
  unfoldable mutual
    pub IsJson : Value Date Object → Type 0
    IsJson null = Unit
    IsJson (boolean b) = Unit
    IsJson (number n) = Unit
    IsJson (text s) = Unit
    IsJson (date d) = ⊥
    IsJson (object o) = ⊥
    IsJson (list vs) = AreJson vs
    IsJson (dict es) = AreJsonEntries es

    pub AreJson : Values Date Object → Type 0
    AreJson no_values = Unit
    AreJson (value v vs) = IsJson v × AreJson vs

    pub AreJsonEntries : Entries Date Object → Type 0
    AreJsonEntries no_entries = Unit
    AreJsonEntries (entry k v es) = IsJson v × AreJsonEntries es

  abbrev pub IsSafe : Option String → Value Date Object → Type 0
  IsSafe key v = IsShown key v × (is_hidden python key ≡ true → v ≡ text redacted)

module _ {Date Object : Type 0} (python : Python Date Object) where
  -- The first three characters decide, and stay.
  is_path-prefix :
      (n : ℕ) (s : String) → is_path python (prefix (suc (suc (suc n))) s) ≡ is_path python s
  unfolding is_path prefix
  is_path-prefix n nil = refl
  is_path-prefix n (cons c nil) = refl
  is_path-prefix n (cons c (cons d nil)) = refl
  is_path-prefix n (cons c (cons d (cons e s))) = refl

  redacted-IsShown : (key : Option String) → IsShown python key (text redacted)
  unfolding IsShown is_path prefix
  redacted-IsShown key = (ground arith, refl)

  pub veil-IsShown :
      (hidden : Bool) (key : Option String) (v : Value Date Object)
      → IsShown python key v
      → IsShown python key (veil python hidden v)
  veil-IsShown true key v h = redacted-IsShown key
  veil-IsShown false key v h = h

  pub veil-eq_redacted :
      (hidden : Bool) (v : Value Date Object) → hidden ≡ true → veil python hidden v ≡ text redacted
  veil-eq_redacted true v h = refl
  veil-eq_redacted false v h = cc

  text-IsShown :
      (key : Option String) (s : String)
      → IsShown python key (if is_path python s then text redacted else text (prefix 512 s))
  unfolding IsShown
  text-IsShown key s = elim (Bool-cases (is_path python s)) [
    | inl e ↦ rw e (redacted-IsShown key)
    | inr e ↦ rw e (rw (is_path-prefix 509 s) e, prefix-prefix 512 s)
  ]

  mutual
    unfolding redact_shown IsShown IsJson

    pub redact_shown-IsShown :
        (key : Option String) (v : Value Date Object)
        → IsJson python v
        → IsShown python key (redact_shown python key v)
    redact_shown-IsShown key null h = tt
    redact_shown-IsShown key (boolean b) h = tt
    redact_shown-IsShown key (number n) h = tt
    redact_shown-IsShown key (text s) h = text-IsShown key s
    redact_shown-IsShown key (date d) h = elim h [ ]
    redact_shown-IsShown key (object o) h = elim h [ ]
    redact_shown-IsShown key (list vs) h = redact_values-AreSafe key vs h
    redact_shown-IsShown key (dict es) h = redact_entries-AreSafe es h

    redact_values-AreSafe :
        (key : Option String) (vs : Values Date Object)
        → AreJson python vs
        → AreSafe python key (redact_values python key vs)
    redact_values-AreSafe key no_values h = tt
    redact_values-AreSafe key (value v vs) h = (
      veil-IsShown (is_hidden python key) key _ (redact_shown-IsShown key v h.0),
      veil-eq_redacted (is_hidden python key) _,
      redact_values-AreSafe key vs h.1,
    )

    redact_entries-AreSafe :
        (es : Entries Date Object)
        → AreJsonEntries python es
        → AreSafeEntries python (redact_entries python es)
    redact_entries-AreSafe no_entries h = tt
    redact_entries-AreSafe (entry k v es) h = (
      veil-IsShown (is_hidden python (some k)) (some k) _ (redact_shown-IsShown (some k) v h.0),
      veil-eq_redacted (is_hidden python (some k)) _,
      redact_entries-AreSafe es h.1,
    )
