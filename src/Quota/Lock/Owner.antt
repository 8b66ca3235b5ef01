-- ===== src/Quota/Lock/Owner.antt =====
-- The lock keeps others out, and is given back by its owner only.
use text.Mathlib.TextEquality.{eq_iff}
use disk_pulse.Prelude.{
  String, ◌≡◌, ◌≢◌, ◌⊎◌, inl, inr, refl, Bool, true, false, Option, none, some, Option-cases,
  Bool-cases, arith,
}
use disk_pulse.Prelude.Exec.{err, Error, http_exception, Exec}
use disk_pulse.Quota.Lock.{Redis, quota_target_lock, lock_release_script, same_text, release}

-- What Redis documents of the commands.
pub record IsRedis {Store : Type 0} (redis : Redis Store) : Type 0 where
  pub set_taken :
      (key token : String) (s : Store)
      → (redis.set_nx key token s).0 ≡ some true
      → redis.get key (redis.set_nx key token s).1 ≡ some token
  pub set_refused :
      (key token holder : String) (s : Store)
      → redis.get key s ≡ some holder
      → (redis.set_nx key token s).0 ≢ some true
  pub del_key : (key : String) (s : Store) → redis.get key (redis.del key s) ≡ none
  pub del_other :
      (key other : String) (s : Store)
      → other ≢ key
      → redis.get other (redis.del key s) ≡ redis.get other s

-- What the end of the lock makes of the store: no other key changes, nobody else's lock does, and the
-- caller's own is gone, if the script gets to the server.
pub record Releases {Store : Type 0} (redis : Redis Store) (key token : String)
    (before after : Store) : Type 0 where
  pub others : (other : String) → other ≢ key → redis.get other after ≡ redis.get other before
  pub foreign : redis.get key before ≢ some token → redis.get key after ≡ redis.get key before
  pub own :
      redis.get key before ≡ some token → redis.connected before ≡ true → redis.get key after ≡ none

module _ {Store : Type 0} (redis : Redis Store) (laws : IsRedis redis) (key token : String) where
  same_text-some : (o : Option String) → same_text o token ≡ true → o ≡ some token
  same_text-some none h = cc h
  same_text-some (some holder) h = ground (arith, eq_iff holder token)

  same_text-other : (o : Option String) → same_text o token ≡ false → o ≢ some token
  same_text-other none h e = cc e
  same_text-other (some holder) h e = ground (arith, eq_iff holder token)

  release-Releases :
      (store : Store) → Releases redis key token store (release redis true key token store)
  unfolding release lock_release_script
  release-Releases store = elim (Bool-cases (redis.connected store)) [
    | inr c ↦
        rw (c, release)
          (record { others = λ other h. refl; foreign = λ h. refl; own = λ h k. absurd (cc k) })
    | inl c ↦ elim (Bool-cases (same_text (redis.get key store) token)) [
      | inl e ↦
          rw (c, release, lock_release_script, e)
            (record {
              others = λ other h. laws.del_other key other store h;
              foreign = λ h. absurd (h (same_text-some (redis.get key store) e));
              own = λ h k. laws.del_key key store;
            })
      | inr e ↦
          rw (c, release, lock_release_script, e)
            (record {
              others = λ other h. refl;
              foreign = λ h. refl;
              own = λ h k. absurd (same_text-other (redis.get key store) e h);
            })
    ]
  ]

module _ {Store S A : Type 0} (redis : Redis Store) (laws : IsRedis redis) (key token : String)
    (meanwhile : Store → Store) (body : Bool → Exec S A) (s : S) (store : Store) where
  -- While somebody holds the lock, a caller's body is not run as the owner's: it is told that the lock was
  -- not acquired, or it does not run at all and the caller gets an exception.
  pub quota_target_lock-held :
      (holder : String)
      → redis.get key store ≡ some holder
      → let (answer, (s', store')) = quota_target_lock redis key token meanwhile body (s, store) in
        (answer ≡ (body false s).0) × (s' ≡ (body false s).1)
        ⊎ ((e : Error) × (answer ≡ err e) × (s' ≡ s))
  unfolding quota_target_lock
  quota_target_lock-held holder held = elim (Option-cases (redis.set_nx key token store).0) [
    | inl e ↦ rw (e, quota_target_lock) (inr (_, refl, refl))
    | inr (true, e) ↦ elim (laws.set_refused key token holder store held e) [ ]
    | inr (false, e) ↦ rw (e, quota_target_lock) (inl (refl, refl))
  ]

  -- A caller of the lock either gets a 503 without its body being run; or its body runs without the lock,
  -- and the end of the lock changes nothing; or it runs with the lock, and then the end of the lock changes
  -- no other key and no lock that somebody else has taken meanwhile, and deletes the caller's own, if the
  -- script gets to the server.
  pub quota_target_lock-outcome :
      let (answer, (s', store')) = quota_target_lock redis key token meanwhile body (s, store) in
      let (acquired, taken) = redis.set_nx key token store in
      (answer ≡ err (http_exception 503 "quota_lock_unavailable")) × (s' ≡ s) × (acquired ≡ none)
      ⊎ (answer ≡ (body false s).0)
        × (s' ≡ (body false s).1)
        × (acquired ≡ some false)
        × (store' ≡ meanwhile taken)
      ⊎ (answer ≡ (body true s).0)
        × (s' ≡ (body true s).1)
        × (acquired ≡ some true)
        × Releases redis key token (meanwhile taken) store'
  unfolding quota_target_lock release
  quota_target_lock-outcome = elim (Option-cases (redis.set_nx key token store).0) [
    | inl e ↦ rw (e, quota_target_lock) (inl (refl, refl, refl))
    | inr (false, e) ↦ rw (e, quota_target_lock) (inr (inl (refl, refl, refl, refl)))
    | inr (true, e) ↦
        rw (e, quota_target_lock)
          (inr (
            inr (
              refl,
              refl,
              refl,
              release-Releases redis laws key token (meanwhile (redis.set_nx key token store).1),
            )))
  ]
