-- ===== src/Quota/Lock.antt =====
-- `_quota_rule_kwargs`, `_quota_lock_key` and `_quota_target_lock` of backend/services/quotaService.py.
-- Redis is not part of
-- the program: its store and the three commands that the lock uses are parameters.
pub mod Owner
use Prim.Native.String.{◌++◌ as text_append}
use text.Mathlib.Text.{◌==◌ as str_eq}
use disk_pulse.Prelude.{
  ℕ, String, Bool, true, false, Option, none, some, List, [], ◌∷◌, if◌then◌else◌,
}
use disk_pulse.Prelude.Exec.{Result, ok, err, http_exception, Exec}
use disk_pulse.Quota.Request.{
  StorageType, netapp, isilon, unsupported, ResourceType, group, storage_usage, TargetType, volume,
  qtree,
}
use disk_pulse.Quota.Rows.{Resource, Target}

-- The device's rule that an adjustment is about.
pub record Rule : Type 0 where
  pub quota_type : String
  pub volume_name : String
  pub qtree_name : Option String
  pub path : Option String
  pub username : Option String

abbrev quota_type : ResourceType → StorageType → String
quota_type storage_usage _ = "user"
quota_type group netapp = "tree"
quota_type group _ = "directory"

abbrev qtree_name : Target → Option String
qtree_name t = elim t.target_type [ volume ↦ none | qtree ↦ some t.name ]

abbrev path : Resource → Target → StorageType → Option String
path r t isilon = some t.name
path r t _ = r.linux_path

abbrev username : Resource → Option String
username r = elim r.resource_type [ group ↦ none | storage_usage ↦ r.rd_username ]

unfoldable pub quota_rule : Resource → Target → String → StorageType → Rule
quota_rule r t volume_name storage_type = record {
  quota_type = quota_type r.resource_type storage_type;
  volume_name = volume_name;
  qtree_name = qtree_name t;
  path = path r t storage_type;
  username = username r;
}

abbrev or_empty : Option String → String
or_empty none = ""
or_empty (some s) = s

storage_type_text : StorageType → String
storage_type_text netapp = "netapp"
storage_type_text isilon = "isilon"
storage_type_text (unsupported s) = s

-- `"|".join(parts)`
joined : List String → String
joined [] = ""
joined (s ∷ []) = s
joined (s ∷ t ∷ rest) = text_append s (text_append "|" (joined (t ∷ rest)))

-- `digits` is `str` of the cluster's id.
unfoldable pub quota_lock_key : String → StorageType → Rule → String
unfolding storage_type_text joined
quota_lock_key digits storage_type rule = text_append "diskpulse:quota-lock:" (
    joined (
      storage_type_text storage_type
      ∷ digits
      ∷ rule.quota_type
      ∷ rule.volume_name
      ∷ or_empty rule.qtree_name
      ∷ or_empty rule.path
      ∷ or_empty rule.username
      ∷ []))

-- `SET key token NX EX ttl`, with `none` for a RedisError, and the commands `GET` and `DEL` of a script.
-- `connected` tells whether a script gets to the server, and otherwise the client raises.
pub record Redis (Store : Type 0) : Type 0 where
  pub set_nx : String → String → Store → Option Bool × Store
  pub get : String → Store → Option String
  pub del : String → Store → Store
  pub connected : Store → Bool

abbrev same_text : Option String → String → Bool
same_text none token = false
same_text (some holder) token = str_eq holder token

module _ {Store : Type 0} (redis : Redis Store) where
  -- `_LOCK_RELEASE_SCRIPT`, which the server runs in one piece
  unfoldable pub lock_release_script : String → String → Store → Store
  lock_release_script key token store =
      if same_text (redis.get key store) token then redis.del key store else store

  -- The release, whose failure is logged only.
  unfoldable pub release : Bool → String → String → Store → Store
  unfolding lock_release_script
  release false key token store = store
  release true key token store =
      if redis.connected store then lock_release_script key token store else store

module _ {Store S A : Type 0} (redis : Redis Store) where
  -- The body of the `with` statement is told whether the lock is acquired. `meanwhile` is what others do
  -- to the store while it runs.
  unfoldable pub quota_target_lock :
      String → String → (meanwhile : Store → Store) → (Bool → Exec S A) → Exec (S × Store) A
  unfolding release
  quota_target_lock key token meanwhile body (s, store) =
      let (answer, store') = redis.set_nx key token store in
      elim answer [
        | none ↦ (err (http_exception 503 "quota_lock_unavailable"), (s, store'))
        | some acquired ↦
            let (r, s') = body acquired s in
            (r, (s', release redis acquired key token (meanwhile store')))
      ]
