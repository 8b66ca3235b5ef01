-- ===== src/Quota/Examples.antt =====
-- The theorems about quota adjustments at concrete inputs.
use disk_pulse.Prelude.{
  ℕ, ◌+◌, ◌≡◌, ◌⊎◌, inl, inr, refl, String, Bool, true, false, Option, none, some, [], ◌∷◌, arith,
  if◌then◌else◌, length, find, any, Option-cases,
}
use text.Mathlib.Text.{◌==◌ as str_eq}
use text.Mathlib.TextEquality.{eq_iff}
use disk_pulse.Prelude.Exec.{Result, ok, err, http_exception}
use disk_pulse.Access.Db.{Db, User, is_super_admin}
use disk_pulse.Prelude.Text.{strip}
use disk_pulse.Alerts.Recipients.{
  resolve_recipient_usernames, collect, candidate_usernames, clean, mem,
}
use disk_pulse.Quota.Request.{
  QuotaAdjustmentRequest, netapp, group, storage_usage, volume, qtree, with_quota_defaults,
  validate_storage_request, require_safe_limit,
}
use disk_pulse.Quota.Request.Checks.{IsValidRequest}
use disk_pulse.Quota.Rows.{Limits, Resource, Target, Rows, World}
use disk_pulse.Quota.Lock.{Redis, quota_target_lock}
use disk_pulse.Quota.Lock.Owner.{IsRedis, Releases, quota_target_lock-outcome}
use disk_pulse.Quota.Adjustment.{
  DeviceResult, bytes, Environment, timed_out, Job, execute_adjustment_locked,
}
use disk_pulse.Quota.Adjustment.Results.{IsClean, Leaves, execute_adjustment_locked-Leaves}
use disk_pulse.Quota.Adjustment.Audited.{
  CommitsWork, Trail, LoneAttempt, execute_adjustment_locked-Trail,
}
use disk_pulse.Quota.Entry.{
  Call, load, GroupRow, UsageRow, Tables, get_usage, usage_group, super_admin,
  resolve_group_storage_target, require_group_quota_adjustment_permission,
  require_storage_usage_quota_adjustment_permission, adjust_storage_usage_quota,
}
use disk_pulse.Access.Service.{group_capabilities}
use disk_pulse.Quota.Entry.Capabilities.{adjust_quota-permission}
use disk_pulse.Quota.Entry.Admission.{Refused, Admitted}
use disk_pulse.Quota.Entry.Requests.{adjust_storage_usage_quota-Admitted}

-- One hundred GiB, and a soft limit of ninety.
abbrev request : QuotaAdjustmentRequest
request = record {
  hard_limit_bytes = 107_374_182_400;
  soft_limit_bytes = some 96_636_764_160;
  soft_grace = none;
  soft_grace_unit = none;
  force_below_usage = false;
  change_reason = none;
}

request-IsValidRequest : IsValidRequest request
request-IsValidRequest = record {
  positive = omega arith;
  soft_below = λ n e. ground (arith, e);
  soft_positive = λ n e. ground (arith, e);
  grace_positive = λ n e. cc;
  together = refl;
  with_soft = λ e. refl;
}

abbrev limits : Limits
limits = record {
  limit = some 53_687_091_200;
  soft_limit = none;
  used = some 42_949_672_960;
  use_ratio = some 8000;
  soft_use_ratio = none;
}

abbrev directory : Resource
directory = record {
  resource_type = storage_usage;
  id = 5;
  project_id = 1;
  name = "/proj/alpha/lin";
  linux_path = some "/proj/alpha/lin";
  rd_username = some "lin";
  email = some "lin@example.com";
  limits = limits;
}

abbrev alpha : Resource
alpha = record {
  resource_type = group;
  id = 2;
  project_id = 1;
  name = "alpha";
  linux_path = some "/proj/alpha";
  rd_username = some "wang";
  email = none;
  limits = limits;
}

abbrev tree : Target
tree = record { target_type = qtree; id = 3; name = "alpha"; limits = limits }

abbrev vol : Target
vol = record { target_type = volume; id = 4; name = "vol1"; limits = limits }

abbrev rows : Rows
rows = record { resource = directory; target = tree; audits = []; alerts = [] }

abbrev world : World
world = record { session = rows; durable = rows; queue = []; mails = [] }

world-IsClean : IsClean world
world-IsClean = record { resource = refl; target = refl; alerts = refl }

abbrev device : DeviceResult
device = record {
  hard_limit = some 107_374_182_400;
  soft_limit = bytes 96_636_764_160;
  soft_grace = none;
}

-- The write times out, and the read shows the new limits.
abbrev env : Environment
env = record {
  write = λ _. timed_out;
  read = some device;
  attempt_commit = none;
  failure_commit = none;
  result_commit = none;
  enqueue_works = true;
  now = 1_000;
  next_alert_id = 9;
  global_cc = [];
  super_admins = [];
  debug = false;
  display_limit = λ _. "";
}

abbrev job : Job
job = record {
  storage_type = netapp;
  request = request;
  audited = true;
  operation_id = "op";
  old_hard_limit = some 53_687_091_200;
  old_soft_limit = none;
}

execute_adjustment_locked-Leaves_example :
    let (answer, v) = execute_adjustment_locked env job world in
    Leaves env job world timed_out answer v
execute_adjustment_locked-Leaves_example =
    execute_adjustment_locked-Leaves env job world world-IsClean

abbrev commits : CommitsWork env job
commits = record {
  audited = refl;
  attempt_commit = refl;
  failure_commit = refl;
  result_commit = refl;
}

execute_adjustment_locked-Trail_example :
    let (answer, v) = execute_adjustment_locked env job world in
    Trail world answer v ⊎ LoneAttempt world timed_out answer v
execute_adjustment_locked-Trail_example = execute_adjustment_locked-Trail env job world commits

-- A store that maps keys to values.
abbrev Keys : Type 0
Keys = String → Option String

abbrev memory : Redis Keys
memory = record {
  set_nx = λ key token s. elim (s key) [
    | none ↦ (some true, λ k. if str_eq k key then some token else s k)
    | some holder ↦ (some false, s)
  ];
  get = λ key s. s key;
  del = λ key s k. if str_eq k key then none else s k;
  connected = λ s. true;
}

memory-set_taken :
    (key token : String) (s : Keys)
    → (memory.set_nx key token s).0 ≡ some true
    → memory.get key (memory.set_nx key token s).1 ≡ some token
memory-set_taken key token s h = elim (Option-cases (s key)) [
  | inl e ↦ rw (e, (eq_iff key key).1 refl) refl
  | inr (holder, e) ↦ cc (rw e at h)
]

memory-IsRedis : IsRedis memory
memory-IsRedis = record {
  set_taken = memory-set_taken;
  set_refused = λ key token holder s e h. cc (rw e at h);
  del_key = λ key s. rw ((eq_iff key key).1 refl) refl;
  del_other = λ key other s h. ground (arith, h, eq_iff other key);
}

abbrev body : Bool → ℕ → Result ℕ × ℕ
body acquired n = (ok 0, if acquired then n + 1 else n)

-- "b" loses the lock to "c" while it runs.
quota_target_lock-outcome_example :
    let (answer, (n, store)) =
      quota_target_lock memory "k" "b" (λ s k. some "c") body (7, λ k. none) in
    (answer ≡ err (http_exception 503 "quota_lock_unavailable")) × (n ≡ 7) × (some true ≡ none)
    ⊎ (answer ≡ ok 0) × (n ≡ 7) × (some true ≡ some false) × (store ≡ (λ k. some "c"))
    ⊎ (answer ≡ ok 0)
      × (n ≡ 8)
      × (some true ≡ some true)
      × Releases memory "k" "b" (λ k. some "c") store
unfolding quota_target_lock
quota_target_lock-outcome_example =
    quota_target_lock-outcome memory memory-IsRedis "k" "b" (λ s k. some "c") body 7 (λ k. none)

abbrev db : Db
db = record {
  super_admin_usernames = "root" ∷ [];
  users = record { id = 8; username = none; rd_username = some "lin"; email = none } ∷ [];
  projects = record { id = 1; in_charge_user_id = some 8 } ∷ [];
  groups = [];
  storage_usages = [];
  memberships = [];
  next_membership_id = 1;
  audits = [];
}

abbrev alpha_row : GroupRow
alpha_row = record {
  id = 2;
  project_id = 1;
  volume_id = none;
  qtree_id = some 3;
  cluster = record { storage_type = netapp; id_text = "1" };
  resource = alpha;
}

abbrev tables : Tables
tables = record {
  access = db;
  groups = alpha_row ∷ [];
  usages = record { id = 5; group_id = some 2; user_id = some 8; resource = directory } ∷ [];
  volumes = vol ∷ [];
  qtrees = record { volume_id = some 4; target = tree } ∷ [];
}

abbrev call_by : User → Call
call_by user = record {
  env = env;
  request = request;
  current_user = some user;
  audited = true;
  operation_id = "op";
  token = "t";
}

abbrev lin : Call
lin = call_by (record { id = 8; username = none; rd_username = some "lin"; email = none })

abbrev root : Call
root = call_by (record { id = 1; username = none; rd_username = some "root"; email = none })

adjust_quota-permission_example :
    group_capabilities db root.current_user (some (record { id = 2; project_id = 1 })) ≡ true
unfolding require_group_quota_adjustment_permission is_super_admin any
adjust_quota-permission_example =
    (adjust_quota-permission db (record { id = 2; project_id = 1 })
        (record { id = 5; group_id = some 2; user_id = some 8 }) root.current_user).0.1
      refl

adjust_storage_usage_quota-Admitted_example :
    let (answer, (v, store)) =
      adjust_storage_usage_quota memory (λ s. s) tables 5 lin (world, λ k. none) in
    Refused world answer v
    ⊎ ((u : UsageRow) × (g : GroupRow) × (get_usage tables 5 ≡ some u)
        × (usage_group tables u ≡ some g)
        × (require_storage_usage_quota_adjustment_permission db (some g.project_id) lin.current_user
            ≡ ok tt)
        × Admitted lin
            (super_admin db lin.current_user)
            u.resource
            g.cluster.storage_type
            (resolve_group_storage_target tables g)
            world
            answer
            v)
adjust_storage_usage_quota-Admitted_example =
    adjust_storage_usage_quota-Admitted memory (λ s. s) tables 5 lin world (λ k. none) world-IsClean

-- A run of the whole: the directory has the new limits, and one alert waits in the queue.
adjust_storage_usage_quota_run :
    let (answer, (v, store)) =
      adjust_storage_usage_quota memory (λ s. s) tables 5 lin (world, λ k. none) in
    (v.durable.resource.limits.limit ≡ some 107_374_182_400)
    × (length v.durable.audits ≡ 2)
    × (v.queue ≡ 9 ∷ [])
unfolding adjust_storage_usage_quota find require_storage_usage_quota_adjustment_permission
    is_super_admin any validate_storage_request with_quota_defaults require_safe_limit
    quota_target_lock execute_adjustment_locked load resolve_recipient_usernames collect
    candidate_usernames clean strip mem
adjust_storage_usage_quota_run = (refl, refl, refl)
