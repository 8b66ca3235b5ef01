-- ===== src/Prelude/Text.antt =====
-- Text as Python handles it: `str.strip`, over the native strings.
use Prim.Native.Nat.{ℕ, zero, suc}
use Prim.Native.Char.{Char, code}
use Prim.Native.String.{String, [], ◌∷◌}
use mathlib.Core.Path.{◌≡◌, refl, ap}
use mathlib.Core.Bool.{Bool, ◌&&◌, ◌||◌}
use disk_pulse.Prelude.Tests.{leb, ◌==◌, if◌then◌else◌}

-- The code points for which `str.isspace` holds.
unfoldable pub is_space : ℕ → Bool
is_space c =
    (leb 9 c && leb c 13)
    || (leb 28 c && leb c 32)
    || c == 133
    || c == 160
    || c == 5760
    || (leb 8192 c && leb c 8202)
    || c == 8232
    || c == 8233
    || c == 8239
    || c == 8287
    || c == 12288

unfoldable pub lstrip : String → String
unfolding is_space
lstrip [] = []
lstrip (c ∷ s) = if is_space (code c) then lstrip s else c ∷ s

before : Char → String → String
unfolding is_space
before c [] = if is_space (code c) then [] else c ∷ []
before c (d ∷ t) = c ∷ d ∷ t

-- A space at the end is dropped where nothing but spaces follows it.
unfoldable pub rstrip : String → String
unfolding before
rstrip [] = []
rstrip (c ∷ s) = before c (rstrip s)

unfoldable pub strip : String → String
unfolding lstrip rstrip
strip s = rstrip (lstrip s)

-- `s[:n]`
unfoldable pub prefix : ℕ → String → String
prefix zero s = []
prefix (suc n) [] = []
prefix (suc n) (c ∷ s) = c ∷ prefix n s

pub prefix-prefix : (n : ℕ) (s : String) → prefix n (prefix n s) ≡ prefix n s
unfolding prefix
prefix-prefix zero s = refl
prefix-prefix (suc n) [] = refl
prefix-prefix (suc n) (c ∷ s) = ap (◌∷◌ c) (prefix-prefix n s)
