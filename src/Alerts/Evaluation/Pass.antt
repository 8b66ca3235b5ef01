-- ===== src/Alerts/Evaluation/Pass.antt =====
-- One pass of `evaluate_storage_alerts` of backend/celery_tasks/tasks/storage_alerts.py. The joined rows
-- stand inside the rows that they are joined to. In which order the database lists the names of clusters
-- is an argument.
pub mod Added
pub mod Returned
pub mod Known
pub mod Kept
pub mod Replay
use disk_pulse.Prelude.{
  ℕ, String, Bool, true, false, not, ◌&&◌, ◌||◌, Option, none, some, List, [], ◌∷◌, ◌++◌, ◌==◌,
  ◌=?◌, if◌then◌else◌, any, is_some,
}
use disk_pulse.Prelude.Exec.{Error, Result, ok, err}
use disk_pulse.Prelude.Time.{Instant}
use disk_pulse.Access.Db.{User}
use disk_pulse.Alerts.Rule.{
  StorageAlertRule, default_storage_alert_rule, TargetType, storage_usage, group, project,
}
use disk_pulse.Alerts.Transition.{AlertState}
use disk_pulse.Alerts.Recipients.{mem}
use disk_pulse.Alerts.Evaluation.{Tables, Settings, Subject, evaluate_one}
use disk_pulse.Alerts.Evaluation.Notice.{
  Target, Context, one, many, username, cluster, clusters, project_name, group_tag, group_name,
  linux_path,
}

-- A user that is in charge of something, or owns a directory.
pub record Person : Type 0 where
  pub rd_username : Option String
  pub is_alert : Bool

pub record ProjectRow : Type 0 where
  pub target : Target
  pub name : String
  pub status : ℕ
  pub is_alert : Bool
  pub storage_alert_rule : Option StorageAlertRule
  pub in_charge_user : Option Person

pub record GroupRow : Type 0 where
  pub target : Target
  pub name : String
  pub storage_cluster_id : Option ℕ
  pub cluster_name : Option String
  pub enable_monitoring : Bool
  pub updated_at : Instant
  pub storage_alert_rule : Option StorageAlertRule
  pub alert_cc_user_ids : List ℕ
  pub project_row : Option ProjectRow
  pub tag_name : Option String
  pub in_charge_user : Option Person
  pub path : Option String

pub record UsageRow : Type 0 where
  pub target : Target
  pub storage_cluster_id : Option ℕ
  pub cluster_name : Option String
  pub updated_at : Instant
  pub user : Option Person
  pub group_row : Option GroupRow
  pub path : Option String

-- What the pass reads besides the states.
pub record Resources : Type 0 where
  pub system_rule : Option StorageAlertRule
  pub usages : List UsageRow
  pub groups : List GroupRow
  pub projects : List ProjectRow

-- The arguments of the pass: the ids of what was refreshed.
pub record Refreshed : Type 0 where
  pub successful_cluster_ids : List ℕ
  pub project_ids : List ℕ
  pub storage_usage_ids : List ℕ
  pub group_ids : List ℕ

abbrev has_id : List ℕ → ℕ → Bool
has_id ids n = any (λ m. m == n) ids

-- `column IN (...)`, which NULL never is.
abbrev in_ids : Option ℕ → List ℕ → Bool
in_ids none ids = false
in_ids (some n) ids = has_id ids n

abbrev name_of : Option Person → Option String
name_of none = none
name_of (some p) = p.rd_username

abbrev project_name_of : Option ProjectRow → Option String
project_name_of none = none
project_name_of (some p) = some p.name

abbrev project_rule_of : Option ProjectRow → Option StorageAlertRule
project_rule_of none = none
project_rule_of (some p) = p.storage_alert_rule

-- `not usage.user or not usage.user.is_alert`, the other way round.
abbrev wants_alerts : Option Person → Bool
wants_alerts none = false
wants_alerts (some p) = p.is_alert

module _ (rival : TargetType → ℕ → Option AlertState) where
  usage_subject : UsageRow → GroupRow → Subject
  usage_subject u g = record {
    target_type = storage_usage;
    target = u.target;
    project_rule = project_rule_of g.project_row;
    group_rule = g.storage_alert_rule;
    alert_cc_user_ids = g.alert_cc_user_ids;
    primary_usernames = name_of u.user ∷ [];
    context =
        (username, one (name_of u.user))
        ∷ (cluster, one u.cluster_name)
        ∷ (project_name, one (project_name_of g.project_row))
        ∷ (group_tag, one g.tag_name)
        ∷ (group_name, one (some g.name))
        ∷ (linux_path, one u.path)
        ∷ [];
    rival = rival storage_usage u.target.id;
  }

  -- The filter of the query and the test at the head of the loop.
  unfoldable pub usage_subjects : Refreshed → Instant → List UsageRow → List Subject
  unfolding usage_subject
  usage_subjects r now [] = []
  usage_subjects r now (u ∷ rows) =
      let rest = usage_subjects r now rows in
      if in_ids u.storage_cluster_id r.successful_cluster_ids
        && has_id r.storage_usage_ids u.target.id
        && u.updated_at == now
      then elim u.group_row [
        | none ↦ rest
        | some g ↦
            if g.enable_monitoring && wants_alerts u.user then usage_subject u g ∷ rest else rest
      ]
      else rest

  group_subject : GroupRow → Subject
  group_subject g = record {
    target_type = group;
    target = g.target;
    project_rule = project_rule_of g.project_row;
    group_rule = g.storage_alert_rule;
    alert_cc_user_ids = g.alert_cc_user_ids;
    primary_usernames = name_of g.in_charge_user ∷ [];
    context =
        (cluster, one g.cluster_name)
        ∷ (group_tag, one g.tag_name)
        ∷ (project_name, one (project_name_of g.project_row))
        ∷ (group_name, one (some g.name))
        ∷ (linux_path, one g.path)
        ∷ [];
    rival = rival group g.target.id;
  }

  unfoldable pub group_subjects : Refreshed → Instant → List GroupRow → List Subject
  unfolding group_subject
  group_subjects r now [] = []
  group_subjects r now (g ∷ rows) =
      let rest = group_subjects r now rows in
      if in_ids g.storage_cluster_id r.successful_cluster_ids
        && g.enable_monitoring
        && has_id r.group_ids g.target.id
        && g.updated_at == now
      then group_subject g ∷ rest
      else rest

  abbrev in_project : Option ProjectRow → ℕ → Bool
  in_project none n = false
  in_project (some p) n = p.target.id == n

  -- The names of the clusters of the monitored groups of a project, each once.
  unfoldable pub cluster_names : ℕ → List GroupRow → List String
  cluster_names n [] = []
  cluster_names n (g ∷ rows) =
      let rest = cluster_names n rows in
      elim g.cluster_name [
        | none ↦ rest
        | some name ↦
            if in_project g.project_row n && g.enable_monitoring && not (mem name rest)
            then name ∷ rest
            else rest
      ]

  module _ (order_by_name : List String → List String) where
    project_subject : List GroupRow → ProjectRow → Subject
    unfolding cluster_names
    project_subject groups p = record {
      target_type = project;
      target = p.target;
      project_rule = p.storage_alert_rule;
      group_rule = none;
      alert_cc_user_ids = [];
      primary_usernames = name_of p.in_charge_user ∷ [];
      context =
          (project_name, one (some p.name))
          ∷ (clusters, many (order_by_name (cluster_names p.target.id groups)))
          ∷ [];
      rival = rival project p.target.id;
    }

    unfoldable pub project_subjects : Refreshed → List GroupRow → List ProjectRow → List Subject
    unfolding project_subject
    project_subjects r groups [] = []
    project_subjects r groups (p ∷ rows) =
        let rest = project_subjects r groups rows in
        if has_id r.project_ids p.target.id && p.status == 1 && p.is_alert
        then project_subject groups p ∷ rest
        else rest

    -- The targets of the three loops, in their order.
    unfoldable pub subjects : Resources → Refreshed → Instant → List Subject
    unfolding usage_subjects group_subjects project_subjects
    subjects w r now =
        usage_subjects r now w.usages
        ++ (group_subjects r now w.groups ++ project_subjects r w.groups w.projects)

-- `(config.storage_alert_rule if config else None) or DEFAULT_STORAGE_ALERT_RULE`
abbrev pub system_rule_of : Option StorageAlertRule → StorageAlertRule
system_rule_of none = default_storage_alert_rule
system_rule_of (some rule) = rule

-- `with SessionLocal.begin()`: what raises is rolled back.
abbrev in_transaction : Tables → Result (List ℕ) × Tables → Result (List ℕ) × Tables
in_transaction before (ok ids, after) = (ok ids, after)
in_transaction before (err e, after) = (err e, before)

abbrev pub with_id : Option ℕ → List ℕ → List ℕ
with_id none ids = ids
with_id (some n) ids = n ∷ ids

abbrev pub append_to : Option ℕ → Result (List ℕ) × Tables → Result (List ℕ) × Tables
append_to id (ok ids, db) = (ok (with_id id ids), db)
append_to id (err e, db) = (err e, db)

-- The rest of the loop, unless the body has raised.
abbrev pub and_then :
    Result (Option ℕ) × Tables → (Tables → Result (List ℕ) × Tables) → Result (List ℕ) × Tables
and_then (err e, db) rest = (err e, db)
and_then (ok id, db) rest = append_to id (rest db)

module _ (display_capacity : Option ℕ → String) (display_ratio : ℕ → String)
    (signature_of : StorageAlertRule → String) (c : Settings) (users : List User) where
  -- The loop over the targets, whose body appends the id that `_evaluate_one` returns.
  unfoldable pub evaluate_each :
      StorageAlertRule → Instant → List Subject → Tables → Result (List ℕ) × Tables
  evaluate_each rule now [] db = (ok [], db)
  evaluate_each rule now (x ∷ xs) db =
      and_then (evaluate_one display_capacity display_ratio signature_of c users rule now x db)
        (evaluate_each rule now xs)

  unfoldable pub evaluate_storage_alerts :
      (TargetType → ℕ → Option AlertState)
      → (List String → List String)
      → Resources
      → Refreshed
      → Instant
      → Tables
      → Result (List ℕ) × Tables
  unfolding evaluate_each subjects
  evaluate_storage_alerts rival order_by_name w r now db =
      in_transaction db
        (evaluate_each (system_rule_of w.system_rule) now (subjects rival order_by_name w r now) db)
