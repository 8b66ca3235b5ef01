-- ===== src/Quota/Adjustment/Device.antt =====
-- What a device is asked and answers, and what an adjustment takes from outside the program.
use disk_pulse.Prelude.{ℕ, String, Bool, Option, none, some, List}
use disk_pulse.Prelude.Time.{Instant}
use disk_pulse.Prelude.Exec.{Error}
use disk_pulse.Quota.Request.{ResourceType, StorageType}
use disk_pulse.Quota.Rows.{Source}

-- The soft limit in a device's answer: no such key, -1 for no limit, or a number of bytes.
pub data DeviceSoft : Type 0 where
  missing minus_one : DeviceSoft
  bytes : ℕ → DeviceSoft

-- The answer of a device: a client hands on whatever stands under the key of the hard limit, which may
-- be nothing.
pub record DeviceResult : Type 0 where
  pub hard_limit : Option ℕ
  pub soft_limit : DeviceSoft
  pub soft_grace : Option ℕ

-- An answer with a hard limit.
pub record DeviceLimits : Type 0 where
  pub hard_limit : ℕ
  pub soft_limit : DeviceSoft
  pub soft_grace : Option ℕ

-- What building the client and writing the limit come to. A response of the device to a refused
-- request is handed on, if it has one.
pub data WriteOutcome : Type 0 where
  written : DeviceResult → WriteOutcome
  rejected : Error → WriteOutcome
  timed_out unavailable : WriteOutcome
  http_error : Option ℕ → WriteOutcome

-- What the device is asked to write: the capacity of a volume, or a quota rule.
pub data Command : Type 0 where
  update_volume_capacity : ℕ → Command
  update_quota : ℕ → Option ℕ → Option ℕ → Command

pub record Environment : Type 0 where
  pub write : Command → WriteOutcome
  -- `none` where the read fails
  pub read : Option DeviceResult
  pub attempt_commit : Option Error
  pub failure_commit : Option Error
  pub result_commit : Option Error
  pub enqueue_works : Bool
  pub now : Instant
  pub next_alert_id : ℕ
  pub global_cc : List (Option String)
  pub super_admins : List (Option String)
  pub debug : Bool
  pub display_limit : Option ℕ → String

pub record QuotaAdjustmentResponse : Type 0 where
  pub id : ℕ
  pub resource_type : ResourceType
  pub storage_type : StorageType
  pub hard_limit : ℕ
  pub soft_limit : Option ℕ
  pub soft_grace_seconds : Option ℕ
  pub operation_id : String
  pub verification_source : Source

-- The response of a request: the new limits, or the device's own error response.
pub data Response : Type 0 where
  adjusted : QuotaAdjustmentResponse → Response
  native : ℕ → Response

-- `... if soft_limit not in (None, -1) else None`
abbrev pub soft_of : DeviceSoft → Option ℕ
soft_of missing = none
soft_of minus_one = none
soft_of (bytes n) = some n

abbrev pub with_hard : ℕ → DeviceResult → DeviceLimits
with_hard n d = record { hard_limit = n; soft_limit = d.soft_limit; soft_grace = d.soft_grace }
