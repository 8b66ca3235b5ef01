-- ===== src/Quota/Request/Checks.antt =====
-- What the checks let through.
use disk_pulse.Prelude.{
  ℕ, ◌≤◌, ◌<◌, ◌≡◌, ◌↔◌, ◌⊎◌, inl, inr, refl, Bool, true, false, not, Option, none, some, arith,
  is_some, Bool-cases,
}
use disk_pulse.Prelude.Exec.{ok}
use disk_pulse.Quota.Request.{
  QuotaAdjustmentRequest, validate_limits, soft_grace_seconds, StorageType, netapp, isilon,
  unsupported, ResourceType, TargetType, validate_storage_request, with_quota_defaults,
  with_default_soft_limit, with_default_grace, require_safe_limit, has_reason, is_volume_capacity,
  same_presence, default_soft_limit,
}

-- What the schema establishes.
pub record IsValidRequest (r : QuotaAdjustmentRequest) : Type 0 where
  pub positive : 0 < r.hard_limit_bytes
  pub soft_below : (s : ℕ) → r.soft_limit_bytes ≡ some s → s < r.hard_limit_bytes
  pub soft_positive : (s : ℕ) → r.soft_limit_bytes ≡ some s → 0 < s
  pub grace_positive : (n : ℕ) → r.soft_grace ≡ some n → 0 < n
  pub together : same_presence r.soft_grace r.soft_grace_unit ≡ true
  pub with_soft : is_some r.soft_grace ≡ true → is_some r.soft_limit_bytes ≡ true

pub validate_limits-IsValidRequest :
    (r s : QuotaAdjustmentRequest) → validate_limits r ≡ ok s → (r ≡ s) × IsValidRequest r
unfolding validate_limits
validate_limits-IsValidRequest r s h = (
  ground arith,
  record {
    positive = ground arith;
    soft_below = λ n e. ground arith;
    soft_positive = λ n e. ground arith;
    grace_positive = λ n e. ground arith;
    together = ground arith;
    with_soft = λ e. ground arith;
  },
)

default_lem : (h : ℕ) → 5 < h → (0 < default_soft_limit h) × (default_soft_limit h < h)
default_lem h p = (omega (arith, p), omega (arith, p))

with_default_soft_limit-IsValidRequest :
    (supports : Bool) (r : QuotaAdjustmentRequest)
    → 5 < r.hard_limit_bytes
    → IsValidRequest r
    → IsValidRequest (with_default_soft_limit supports r)
unfolding with_default_soft_limit
with_default_soft_limit-IsValidRequest false r p v =
    elim (Bool-cases (is_some r.soft_limit_bytes)) [ inl e ↦ rw e v | inr e ↦ rw e v ]
with_default_soft_limit-IsValidRequest true r p v = elim (Bool-cases (is_some r.soft_limit_bytes)) [
  | inl e ↦ rw e v
  | inr e ↦ rw e (record {
    positive = v.positive;
    soft_below = λ n e. ground (arith, default_lem r.hard_limit_bytes p);
    soft_positive = λ n e. ground (arith, default_lem r.hard_limit_bytes p);
    grace_positive = v.grace_positive;
    together = v.together;
    with_soft = λ e. refl;
  })
]

with_default_grace-IsValidRequest :
    (storage_type : StorageType) (r : QuotaAdjustmentRequest)
    → IsValidRequest r
    → IsValidRequest (with_default_grace storage_type r)
unfolding with_default_grace
with_default_grace-IsValidRequest netapp r v = v
with_default_grace-IsValidRequest (unsupported _) r v = v
with_default_grace-IsValidRequest isilon r v = elim (Bool-cases (is_some r.soft_limit_bytes)) [
  | inr e ↦ rw e v
  | inl e ↦ elim (Bool-cases (is_some (soft_grace_seconds r))) [
    | inl g ↦ rw (e, g) v
    | inr g ↦
        rw (e, g)
          (record {
            positive = v.positive;
            soft_below = v.soft_below;
            soft_positive = v.soft_positive;
            grace_positive = λ n e. ground arith;
            together = refl;
            with_soft = λ _. e;
          })
  ]
]

-- The defaults keep a request valid, where the limit is more than five bytes.
pub with_quota_defaults-IsValidRequest :
    (r : QuotaAdjustmentRequest) (storage_type : StorageType) (resource_type : ResourceType)
    (target : Option TargetType)
    → 5 < r.hard_limit_bytes
    → IsValidRequest r
    → IsValidRequest (with_quota_defaults r storage_type resource_type target)
unfolding with_quota_defaults
with_quota_defaults-IsValidRequest r storage_type resource_type target p v =
    with_default_grace-IsValidRequest storage_type _ (
      with_default_soft_limit-IsValidRequest
        (not (is_volume_capacity resource_type storage_type target)) r p v)

pub with_quota_defaults-validate :
    (r : QuotaAdjustmentRequest) (storage_type : StorageType) (resource_type : ResourceType)
    (target : Option TargetType)
    → IsValidRequest r
    → (validate_storage_request storage_type
          (with_quota_defaults r storage_type resource_type target)
        ≡ ok tt)
      ↔ ((storage_type ≡ isilon) ⊎ (storage_type ≡ netapp) × (r.soft_grace ≡ none))
unfolding with_quota_defaults validate_storage_request soft_grace_seconds
with_quota_defaults-validate r isilon resource_type target v = (λ h. inl refl, λ h. ground arith)
with_quota_defaults-validate r netapp resource_type target v =
    (λ h. inr (refl, ground arith), λ h. ground arith)
with_quota_defaults-validate r (unsupported s) resource_type target v =
    (λ h. ground (arith, h), λ h. ground (arith, h))

-- The limit does not fall below the recorded use.
abbrev pub CoversUse : Option ℕ → ℕ → Type 0
CoversUse none hard = Unit
CoversUse (some used) hard = used ≤ hard

-- A limit is safe exactly if it covers the recorded use, or a super administrator forces it and says why.
pub require_safe_limit_iff :
    (used : Option ℕ) (r : QuotaAdjustmentRequest) (super_admin : Bool)
    → (require_safe_limit used r super_admin ≡ ok tt) ↔ (
        CoversUse used r.hard_limit_bytes
        ⊎ (r.force_below_usage ≡ true) × (super_admin ≡ true) × (has_reason r.change_reason ≡ true))
unfolding require_safe_limit
require_safe_limit_iff none r super_admin = (λ h. inl tt, λ h. refl)
require_safe_limit_iff (some used) r super_admin = (λ h. ground arith, λ h. ground arith)
