-- ===== src/Alerts/Recipients.antt =====
-- `resolve_recipient_usernames` of backend/services/storageAlertRuleService.py.
use text.Mathlib.Text.{◌==◌ as str_eq}
use text.Mathlib.TextEquality.{eq_iff}
use mathlib.Core.List.{map-append}
use disk_pulse.Prelude.{
  String, ◌≡◌, Bool, true, false, not, ◌&&◌, ◌||◌, ◌⊎◌, Option, none, some, List, [], ◌∷◌, ◌++◌,
  map, arith, if◌then◌else◌, select, Bool-cases, inl, inr, refl,
}
use disk_pulse.Prelude.Text.{strip}

-- `username in usernames`
unfoldable pub mem : String → List String → Bool
mem x [] = false
mem x (y ∷ ys) = str_eq x y || mem x ys

-- `str(username or "").strip()`
unfoldable pub clean : Option String → String
clean none = strip ""
clean (some username) = strip username

-- The loop over the candidates, with the usernames kept so far.
unfoldable pub collect : List String → List (Option String) → List String
collect result [] = result
collect result (username ∷ candidates) =
    let cleaned = clean username in
    collect
      (if not (str_eq cleaned "") && not (mem cleaned result)
        then result ++ cleaned ∷ []
        else result)
      candidates

unfoldable pub candidate_usernames :
    (primary group_cc global_cc super_admins : List (Option String))
    → (debug emergency : Bool) → List (Option String)
candidate_usernames primary group_cc global_cc super_admins debug emergency =
    let business = primary ++ group_cc in
    if debug
    then super_admins
      ++ select (λ username. not (mem (clean username) (map clean business))) global_cc
    else business ++ ((if emergency then super_admins else []) ++ global_cc)

unfoldable pub resolve_recipient_usernames :
    (primary group_cc global_cc super_admins : List (Option String))
    → (debug emergency : Bool) → List String
resolve_recipient_usernames primary group_cc global_cc super_admins debug emergency =
    collect [] (candidate_usernames primary group_cc global_cc super_admins debug emergency)

-- Every name is there once, and none is blank.
abbrev pub IsClean : List String → Type 0
IsClean [] = Unit
IsClean (x ∷ xs) = (str_eq x "" ≡ false) × (mem x xs ≡ false) × IsClean xs

mem-snoc : (x y : String) (xs : List String) → mem x (xs ++ y ∷ []) ≡ (mem x xs || str_eq x y)
unfolding mem
mem-snoc x y [] = ground arith
mem-snoc x y (z ∷ xs) = ground (arith, mem-snoc x y xs)

IsClean-snoc :
    (y : String) (xs : List String)
    → str_eq y "" ≡ false
    → mem y xs ≡ false
    → IsClean xs
    → IsClean (xs ++ y ∷ [])
unfolding mem
IsClean-snoc y [] blank fresh h = (blank, refl, tt)
IsClean-snoc y (x ∷ xs) blank fresh h = (
  h.0,
  ground (arith, mem-snoc x y xs, h.1, eq_iff x y, eq_iff y x),
  IsClean-snoc y xs blank (ground arith) h.2,
)

collect-IsClean :
    (candidates : List (Option String)) (result : List String)
    → IsClean result
    → IsClean (collect result candidates)
unfolding collect
collect-IsClean [] result h = h
collect-IsClean (username ∷ candidates) result h =
    collect-IsClean candidates
      (if not (str_eq (clean username) "") && not (mem (clean username) result)
        then result ++ clean username ∷ []
        else result)
      (keep (Bool-cases (str_eq (clean username) "")) (Bool-cases (mem (clean username) result)))
  where
    keep :
        (str_eq (clean username) "" ≡ true) ⊎ (str_eq (clean username) "" ≡ false)
        → (mem (clean username) result ≡ true) ⊎ (mem (clean username) result ≡ false)
        → IsClean (
            if not (str_eq (clean username) "") && not (mem (clean username) result)
            then result ++ clean username ∷ []
            else result)
    keep (inl b) m = rw b h
    keep (inr b) (inl m) = rw (b, m) h
    keep (inr b) (inr m) = rw (b, m) (IsClean-snoc (clean username) result b m h)

mem-collect :
    (x : String) (candidates : List (Option String)) (result : List String)
    → str_eq x "" ≡ false
    → mem x (collect result candidates) ≡ (mem x result || mem x (map clean candidates))
unfolding collect mem
mem-collect x [] result h = ground arith
mem-collect x (username ∷ candidates) result h = ground (
  arith,
  mem-collect x candidates result,
  mem-collect x candidates (result ++ clean username ∷ []),
  mem-snoc x (clean username) result,
  eq_iff x (clean username),
  eq_iff x "",
)

pub mem-append : (x : String) (xs ys : List String) → mem x (xs ++ ys) ≡ (mem x xs || mem x ys)
unfolding mem
mem-append x [] ys = refl
mem-append x (z ∷ xs) ys = ground (arith, mem-append x xs ys)

mem-select_ne :
    (x : String) (names : List String) (global_cc : List (Option String))
    → mem x (map clean (select (λ username. not (mem (clean username) names)) global_cc))
      ≡ (mem x (map clean global_cc) && not (mem x names))
unfolding mem select
mem-select_ne x names [] = refl
mem-select_ne x names (username ∷ global_cc) = elim (Bool-cases (str_eq x (clean username))) [
  | inl same ↦
      let e = (eq_iff x (clean username)).0 same in
      ground (arith, e, mem-select_ne x names global_cc)
  | inr other ↦ ground (arith, mem-select_ne x names global_cc)
]

module _ (primary group_cc global_cc super_admins : List (Option String))
    (debug emergency : Bool) where
  abbrev names : List (Option String) → String → Bool
  names usernames x = mem x (map clean usernames)

  mem-candidate_usernames :
      (x : String) (debug emergency : Bool)
      → names (candidate_usernames primary group_cc global_cc super_admins debug emergency) x ≡ (
          if debug
          then names super_admins x
            || (names global_cc x && not (names primary x || names group_cc x))
          else names primary x
            || names group_cc x
            || (emergency && names super_admins x)
            || names global_cc x)
  unfolding candidate_usernames mem
  mem-candidate_usernames x true emergency =
      rw
        (
          map-append clean super_admins _,
          mem-append,
          mem-select_ne x (map clean (primary ++ group_cc)) global_cc,
        )
        (simp (map-append, mem-append))
  mem-candidate_usernames x false true = simp (map-append, mem-append) (ground arith)
  mem-candidate_usernames x false false = simp (map-append, mem-append) (ground arith)

  -- A recipient list names nobody twice and holds no blank name. A name that is not blank is in it
  -- exactly when, in debug mode, it is a super administrator's, or a global copy's and no business
  -- recipient's; and otherwise when it is a business recipient's, a global copy's, or, in an
  -- emergency, a super administrator's.
  pub mem-resolve_recipient_usernames :
      IsClean (resolve_recipient_usernames primary group_cc global_cc super_admins debug emergency)
      × ((x : String)
          → str_eq x "" ≡ false
          → mem x
              (resolve_recipient_usernames primary group_cc global_cc super_admins debug emergency)
            ≡ (if debug
                then names super_admins x
                  || (names global_cc x && not (names primary x || names group_cc x))
                else names primary x
                  || names group_cc x
                  || (emergency && names super_admins x)
                  || names global_cc x))
  unfolding resolve_recipient_usernames mem
  mem-resolve_recipient_usernames = (
    collect-IsClean (candidate_usernames primary group_cc global_cc super_admins debug emergency) []
        tt,
    λ x h.
        rw
          (mem-collect x
            (candidate_usernames primary group_cc global_cc super_admins debug emergency) [] h)
          (mem-candidate_usernames x debug emergency),
  )
