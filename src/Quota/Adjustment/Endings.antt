-- ===== src/Quota/Adjustment/Endings.antt =====
-- The ways in which the code ends behind the device's answer.
use disk_pulse.Prelude.{
  ℕ, String, ◌≡◌, inl, inr, refl, true, Option, none, some, Bool-cases, Option-cases,
}
use disk_pulse.Prelude.Exec.{Result, ok, err, type_error, continue, lift}
use disk_pulse.Quota.Rows.{quota_adjust, World, Source, post_write_readback, post_timeout_readback}
use disk_pulse.Quota.Adjustment.{
  Environment, Job, Response, adjusted, native, DeviceResult, DeviceLimits, with_hard, matches,
  after_write, after_timeout, take_over, confirmed, fail_with, WriteOutcome, written, timed_out,
  rejected, http_error, unavailable,
}

-- The device has confirmed these limits: in its answer to the write, or, where that timed out, in a read
-- that shows what was asked for.
pub data Confirms (env : Environment) (job : Job)
    : WriteOutcome → DeviceLimits → Source → Type 0 where
  by_write :
      {d : DeviceResult} {n : ℕ}
      → d.hard_limit ≡ some n
      → Confirms env job (written d) (with_hard n d) post_write_readback
  by_read :
      {d : DeviceResult} {n : ℕ}
      → env.read ≡ some d
      → d.hard_limit ≡ some n
      → matches d job.request ≡ true
      → Confirms env job timed_out (with_hard n d) post_timeout_readback

abbrev pub IsFailure : Result Response → Type 0
IsFailure (err _) = Unit
IsFailure (ok (native _)) = Unit
IsFailure (ok (adjusted _)) = ⊥

pub continue-lift :
    {S A B : Type 0} (r : Result A × S) (b : Result B) → (continue r.0 (λ _. lift b) r.1).1 ≡ r.1
continue-lift (ok a, s) b = refl
continue-lift (err e, s) b = refl

-- How the code ends behind the device's answer: with a failure that it handles, with the exception for an
-- answer without a hard limit, or with a confirmation, whose commit may fail.
pub data Ends (env : Environment) (job : Job) (w : World)
    : WriteOutcome → Result Response × World → Type 0 where
  fails :
      {o : WriteOutcome} (reason : String) (answer : Result Response)
      → IsFailure answer
      → Ends env job w o (fail_with env job quota_adjust reason answer w)
  escapes :
      {d : DeviceResult} → d.hard_limit ≡ none → Ends env job w (written d) (err type_error, w)
  confirms :
      {o : WriteOutcome} {d : DeviceLimits} {source : Source}
      → Confirms env job o d source
      → Ends env job w o (confirmed env job d source w)

matches-hard :
    (env : Environment) (job : Job) (d : DeviceResult)
    → matches d job.request ≡ true
    → (n : ℕ) × (d.hard_limit ≡ some n)
unfolding matches
matches-hard env job d m = elim (Option-cases d.hard_limit) [
  | inl e ↦ cc (rw (e, matches) at m)
  | inr (n, e) ↦ (n, e)
]

after_timeout-Ends :
    (env : Environment) (job : Job) (read : Option DeviceResult) (w : World)
    → env.read ≡ read
    → Ends env job w timed_out (after_timeout env job read w)
unfolding after_timeout take_over
after_timeout-Ends env job none w e = fails _ _ tt
after_timeout-Ends env job (some d) w e = elim (Bool-cases (matches d job.request)) [
  | inl m ↦ let (n, h) = matches-hard env job d m in rw (m, h, take_over) (confirms (by_read e h m))
  | inr m ↦ rw m (fails _ _ tt)
]

written-Ends :
    (env : Environment) (job : Job) (d : DeviceResult) (hard : Option ℕ) (w : World)
    → d.hard_limit ≡ hard
    → Ends env job w (written d) (take_over env job hard d post_write_readback w)
unfolding take_over
written-Ends env job d none w e = escapes e
written-Ends env job d (some n) w e = confirms (by_write e)

pub after_write-Ends :
    (env : Environment) (job : Job) (o : WriteOutcome) (w : World)
    → Ends env job w o (after_write env job o w)
unfolding after_write
after_write-Ends env job (written d) w = written-Ends env job d d.hard_limit w refl
after_write-Ends env job (rejected e) w = fails _ _ tt
after_write-Ends env job unavailable w = fails _ _ tt
after_write-Ends env job (http_error none) w = fails _ _ tt
after_write-Ends env job (http_error (some n)) w = fails _ _ tt
after_write-Ends env job timed_out w = after_timeout-Ends env job env.read w refl
