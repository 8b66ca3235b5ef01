-- ===== src/Quota/Request.antt =====
-- backend/schemas/quotaSchema.py, and the checks of a request in backend/services/quotaService.py.
-- A limit is a whole number of bytes: the request's number times its unit. The program's numbers are
-- floating-point, and their rounding below one byte is left out.
pub mod Checks
use text.Mathlib.Text.{◌==◌ as str_eq}
use disk_pulse.Prelude.{
  ℕ, ◌+◌, ◌*◌, ◌/◌, String, Bool, true, false, not, ◌&&◌, ◌||◌, Option, none, some, ltb, leb,
  if◌then◌else◌, is_some,
}
use disk_pulse.Prelude.Exec.{Result, ok, err, http_exception, value_error}

pub data GraceUnit : Type 0 where
  minutes hours days : GraceUnit

-- `_GRACE_MULTIPLIERS`
abbrev pub grace_multiplier : GraceUnit → ℕ
grace_multiplier minutes = 60
grace_multiplier hours = 3_600
grace_multiplier days = 86_400

pub record QuotaAdjustmentRequest : Type 0 where
  pub hard_limit_bytes : ℕ
  pub soft_limit_bytes : Option ℕ
  pub soft_grace : Option ℕ
  pub soft_grace_unit : Option GraceUnit
  pub force_below_usage : Bool
  pub change_reason : Option String

-- `soft_limit >= hard_limit`
abbrev soft_too_high : QuotaAdjustmentRequest → Bool
soft_too_high r = elim r.soft_limit_bytes [ none ↦ false | some s ↦ leb r.hard_limit_bytes s ]

abbrev positive : Option ℕ → Bool
positive none = true
positive (some n) = ltb 0 n

abbrev pub same_presence {ℓ κ} : {A : Type ℓ} {B : Type κ} → Option A → Option B → Bool
same_presence none none = true
same_presence (some _) (some _) = true
same_presence _ _ = false

-- The `Field` constraints, and `validate_limits`.
unfoldable pub validate_limits : QuotaAdjustmentRequest → Result QuotaAdjustmentRequest
validate_limits r =
    if not (ltb 0 r.hard_limit_bytes && positive r.soft_limit_bytes && positive r.soft_grace)
    then err (value_error "Input should be greater than 0")
    else if soft_too_high r
    then err (value_error "soft_limit must be less than hard_limit")
    else if not (same_presence r.soft_grace r.soft_grace_unit)
    then err (value_error "soft_grace and soft_grace_unit must be provided together")
    else if not (is_some r.soft_limit_bytes) && is_some r.soft_grace
    then err (value_error "soft_grace requires soft_limit")
    else ok r

-- `soft_grace * _GRACE_MULTIPLIERS[soft_grace_unit]`
unfoldable pub soft_grace_seconds : QuotaAdjustmentRequest → Option ℕ
soft_grace_seconds r = elim r.soft_grace [
  | none ↦ none
  | some n ↦ elim r.soft_grace_unit [ none ↦ none | some unit ↦ some (n * grace_multiplier unit) ]
]

-- The storage type in lower case.
pub data StorageType : Type 0 where
  netapp isilon : StorageType
  unsupported : String → StorageType

pub data ResourceType : Type 0 where
  group storage_usage : ResourceType

pub data TargetType : Type 0 where
  volume qtree : TargetType

unfoldable pub validate_storage_request : StorageType → QuotaAdjustmentRequest → Result (Unit {0})
unfolding soft_grace_seconds
validate_storage_request isilon r =
    if is_some r.soft_limit_bytes && not (is_some (soft_grace_seconds r))
    then err (http_exception 422 "Isilon soft limit requires a grace period")
    else ok tt
validate_storage_request netapp r =
    if is_some (soft_grace_seconds r)
    then err (http_exception 422 "NetApp quota does not support a per-rule grace period")
    else ok tt
validate_storage_request (unsupported _) r = err (http_exception 422 "Unsupported storage type")

-- A project group whose target is a NetApp volume.
abbrev pub is_volume_capacity : ResourceType → StorageType → Option TargetType → Bool
is_volume_capacity group netapp (some volume) = true
is_volume_capacity _ _ _ = false

-- `hard_limit * _DEFAULT_SOFT_LIMIT_RATIO`, to the nearest byte
abbrev pub default_soft_limit : ℕ → ℕ
default_soft_limit hard = (hard * 9 + 5) / 10

abbrev pub isilon_default_soft_grace_days : ℕ
isilon_default_soft_grace_days = 7

abbrev is_isilon : StorageType → Bool
is_isilon isilon = true
is_isilon _ = false

-- The soft limit, and then the grace period that goes with it.
unfoldable pub with_default_soft_limit : Bool → QuotaAdjustmentRequest → QuotaAdjustmentRequest
with_default_soft_limit supports r =
    if not (is_some r.soft_limit_bytes) && supports
    then record r { soft_limit_bytes = some (default_soft_limit r.hard_limit_bytes) }
    else r

unfoldable pub with_default_grace : StorageType → QuotaAdjustmentRequest → QuotaAdjustmentRequest
unfolding soft_grace_seconds
with_default_grace storage_type r =
    if is_isilon storage_type && is_some r.soft_limit_bytes && not (is_some (soft_grace_seconds r))
    then record r { soft_grace = some isilon_default_soft_grace_days; soft_grace_unit = some days }
    else r

unfoldable pub with_quota_defaults :
    QuotaAdjustmentRequest → StorageType → ResourceType → Option TargetType → QuotaAdjustmentRequest
unfolding with_default_soft_limit with_default_grace
with_quota_defaults r storage_type resource_type target =
    with_default_grace storage_type
      (with_default_soft_limit (not (is_volume_capacity resource_type storage_type target)) r)

-- `not request.change_reason`
abbrev pub has_reason : Option String → Bool
has_reason none = false
has_reason (some reason) = not (str_eq reason "")

unfoldable pub require_safe_limit : Option ℕ → QuotaAdjustmentRequest → Bool → Result (Unit {0})
require_safe_limit none r super_admin = ok tt
require_safe_limit (some used) r super_admin =
    if leb used r.hard_limit_bytes
    then ok tt
    else if not r.force_below_usage
    then err (http_exception 422 "quota_below_usage_requires_force")
    else if not super_admin
    then err (http_exception 403 "quota_below_usage_requires_super_admin")
    else if not (has_reason r.change_reason)
    then err (http_exception 422 "quota_below_usage_requires_force")
    else ok tt
