-- ===== src/Prelude/Time.antt =====
-- Aware UTC datetimes, and timedeltas between them, as a number of microseconds (Python's
-- resolution), counted from a fixed origin before every date that the program meets.
use Prim.Native.Nat.{ℕ, ◌*◌}

abbrev pub Instant : Type 0
Instant = ℕ

abbrev pub seconds : ℕ → ℕ
seconds n = n * 1_000_000

abbrev pub hours : ℕ → ℕ
hours n = n * 3_600_000_000
