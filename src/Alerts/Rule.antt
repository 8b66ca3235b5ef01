-- ===== src/Alerts/Rule.antt =====
-- Alert rules: backend/schemas/storageAlertRuleSchema.py, and `_rule_dict`,
-- `resolve_storage_alert_rule` and `_level` of backend/services/storageAlertRuleService.py.
-- A use ratio is a percentage that the program rounds to two digits, so it is a number of hundredths
-- of a percent here. A rule has the schema's shape; that pydantic refuses other shapes is left out.
pub mod Levels
use disk_pulse.Prelude.{
  ℕ, ◌*◌, String, ◌≡◌, Bool, ◌&&◌, Option, none, some, ltb, leb, if◌then◌else◌,
}
use disk_pulse.Prelude.Exec.{Result, ok, err, value_error}

pub data QuotaBasis : Type 0 where
  hard soft : QuotaBasis

pub record StorageAlertLevelRule : Type 0 where
  pub threshold : ℕ
  pub repeat_hours : ℕ

pub record StorageAlertRule : Type 0 where
  pub quota_basis : QuotaBasis
  pub important : StorageAlertLevelRule
  pub serious : StorageAlertLevelRule
  pub emergency : StorageAlertLevelRule

abbrev pub default_storage_alert_rule : StorageAlertRule
default_storage_alert_rule = record {
  quota_basis = hard;
  important = record { threshold = 80; repeat_hours = 24 };
  serious = record { threshold = 90; repeat_hours = 6 };
  emergency = record { threshold = 95; repeat_hours = 1 };
}

-- The `Field` constraints of a level.
field_constraints : StorageAlertLevelRule → Bool
field_constraints r = ltb 0 r.threshold && leb r.threshold 100 && ltb 0 r.repeat_hours

validate_thresholds : StorageAlertRule → Bool
validate_thresholds r =
    ltb 0 r.important.threshold
    && ltb r.important.threshold r.serious.threshold
    && ltb r.serious.threshold r.emergency.threshold
    && leb r.emergency.threshold 100

-- `StorageAlertRule.model_validate(rule).model_dump()`
unfoldable pub rule_dict : StorageAlertRule → Result StorageAlertRule
unfolding field_constraints validate_thresholds
rule_dict r =
    if field_constraints r.important
      && field_constraints r.serious
      && field_constraints r.emergency
      && validate_thresholds r
    then ok r
    else err (value_error "thresholds must satisfy 0 < important < serious < emergency <= 100")

pub data TargetType : Type 0 where
  storage_usage group project : TargetType

pub data RuleSource : Type 0 where
  group_source project_source system_source : RuleSource

pub record ResolvedRule : Type 0 where
  pub rule : StorageAlertRule
  pub source : RuleSource

resolved : StorageAlertRule → RuleSource → Result ResolvedRule
unfolding rule_dict
resolved r source = elim (rule_dict r) [
  | ok rule ↦ ok (record { rule = rule; source = source })
  | err e ↦ err e
]

abbrev project_or_system : StorageAlertRule → Option StorageAlertRule → Result ResolvedRule
unfolding resolved
project_or_system system_rule none = resolved system_rule system_source
project_or_system system_rule (some r) = resolved r project_source

unfoldable pub resolve_storage_alert_rule :
    TargetType
    → StorageAlertRule
    → Option StorageAlertRule
    → Option StorageAlertRule
    → Result ResolvedRule
unfolding resolved project_or_system
resolve_storage_alert_rule storage_usage system_rule project_rule (some r) = resolved r group_source
resolve_storage_alert_rule group system_rule project_rule (some r) = resolved r group_source
resolve_storage_alert_rule _ system_rule project_rule _ = project_or_system system_rule project_rule

pub data Level : Type 0 where
  important serious emergency : Level

-- `LEVELS.index(level)`
abbrev pub index : Level → ℕ
index important = 0
index serious = 1
index emergency = 2

-- `rule[level]`
abbrev pub level_rule : StorageAlertRule → Level → StorageAlertLevelRule
level_rule r important = r.important
level_rule r serious = r.serious
level_rule r emergency = r.emergency

-- `ratio >= threshold`
abbrev pub reaches : ℕ → StorageAlertLevelRule → Bool
reaches ratio r = leb (r.threshold * 100) ratio

-- The loop over `reversed(LEVELS)`, whose body returns at the first threshold that is reached.
unfoldable pub level : StorageAlertRule → ℕ → Option Level
level r ratio =
    if reaches ratio r.emergency
    then some emergency
    else if reaches ratio r.serious
    then some serious
    else if reaches ratio r.important
    then some important
    else none
