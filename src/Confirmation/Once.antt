-- ===== src/Confirmation/Once.antt =====
-- Requests that decide about the same confirmation at the same time, one command of Redis after the other:
-- the two commands of `decide_confirmation` of backend/services/ai_quota_confirmation_service.py. The key
-- is fresh, so nothing is put into the slot again; it may expire at any time.
use package.text.Mathlib.Text.{◌==◌ as str_eq}
use disk_pulse.Prelude.{
  ℕ, zero, suc, ◌+◌, ◌≤◌, String, ◌≡◌, refl, Option, none, some, List, [], ◌∷◌, arith,
  if◌then◌else◌,
}

-- How far a request is: it has not asked, it has read the text, it has consumed the key and goes on, or it
-- was refused.
pub data Phase : Type 0 where
  asking consuming_done refused : Phase
  holding : String → Phase

-- The next command of a request, on what the key holds.
unfoldable pub act : Option String → Phase → Option String × Phase
act none asking = (none, refused)
act (some raw) asking = (some raw, holding raw)
act none (holding raw) = (none, refused)
act (some text) (holding raw) =
    if str_eq text raw then (none, consuming_done) else (some text, refused)
act slot consuming_done = (slot, consuming_done)
act slot refused = (slot, refused)

pub data Event : Type 0 where
  request : ℕ → Event
  expire : Event

unfoldable pub act_at : ℕ → Option String → List Phase → Option String × List Phase
unfolding act
act_at n slot [] = (slot, [])
act_at zero slot (p ∷ ps) = let (slot', p') = act slot p in (slot', p' ∷ ps)
act_at (suc n) slot (p ∷ ps) = let (slot', ps') = act_at n slot ps in (slot', p ∷ ps')

unfoldable pub step : Event → Option String × List Phase → Option String × List Phase
unfolding act_at
step (request n) (slot, ps) = act_at n slot ps
step expire (slot, ps) = (none, ps)

unfoldable pub run : List Event → Option String × List Phase → Option String × List Phase
unfolding step
run [] s = s
run (e ∷ es) s = run es (step e s)

abbrev pub passes : Phase → ℕ
passes consuming_done = 1
passes _ = 0

-- How many requests go on.
unfoldable pub passed : List Phase → ℕ
passed [] = 0
passed (p ∷ ps) = passes p + passed ps

abbrev weight : Option String → ℕ
weight none = 0
weight (some raw) = 1

act-weight :
    (slot : Option String) (p : Phase)
    → let (slot', p') = act slot p in weight slot' + passes p' ≤ weight slot + passes p
unfolding act
act-weight none asking = omega arith
act-weight (some raw) asking = omega arith
act-weight none (holding raw) = omega arith
act-weight (some text) (holding raw) = ground arith
act-weight none consuming_done = omega arith
act-weight (some raw) consuming_done = omega arith
act-weight none refused = omega arith
act-weight (some raw) refused = omega arith

act_at-weight :
    (n : ℕ) (slot : Option String) (ps : List Phase)
    → let (slot', ps') = act_at n slot ps in weight slot' + passed ps' ≤ weight slot + passed ps
unfolding act_at passed
act_at-weight n slot [] = omega arith
act_at-weight zero slot (p ∷ ps) = omega (arith, act-weight slot p)
act_at-weight (suc n) slot (p ∷ ps) = omega (arith, act_at-weight n slot ps)

-- What the key and the requests that go on come to together never grows.
pub run-passed :
    (es : List Event) (slot : Option String) (ps : List Phase)
    → let (slot', ps') = run es (slot, ps) in weight slot' + passed ps' ≤ weight slot + passed ps
unfolding run step
run-passed [] slot ps = omega arith
run-passed (request n ∷ es) slot ps =
    let (slot', ps') = act_at n slot ps in
    omega (arith, act_at-weight n slot ps, run-passed es slot' ps')
run-passed (expire ∷ es) slot ps = omega (arith, run-passed es none ps)

abbrev pub asking_only : ℕ → List Phase
asking_only zero = []
asking_only (suc n) = asking ∷ asking_only n

passed-asking_only : (n : ℕ) → passed (asking_only n) ≡ 0
unfolding passed
passed-asking_only zero = refl
passed-asking_only (suc n) = omega (arith, passed-asking_only n)

-- However the commands of any number of requests interleave, and whenever the key expires, at most one
-- request gets past the consumption of the confirmation.
pub run_once :
    (n : ℕ) (raw : String) (es : List Event) → passed (run es (some raw, asking_only n)).1 ≤ 1
run_once n raw es = omega (arith, run-passed es (some raw) (asking_only n), passed-asking_only n)
