-- ===== src/Incidents/Notification.antt =====
-- backend/services/incidentNotificationService.py: who is told of an incident, and by what. The two
-- messages are the lists of the people they go to; their texts are left out.
use text.Mathlib.Text.{◌==◌ as str_eq}
use text.Mathlib.TextEquality.{eq_iff}
use disk_pulse.Prelude.{
  ℕ, ◌≡◌, refl, String, Bool, true, false, not, ◌&&◌, ◌||◌, Option, none, some, List, [], ◌∷◌, ◌++◌,
  ltb, ◌==◌, arith, if◌then◌else◌, select, inl, inr, Bool-cases,
}
use disk_pulse.Prelude.Time.{Instant}
use disk_pulse.Access.Db.{User, ProjectMembership, Db, get_user, get_project}
use disk_pulse.Alerts.Recipients.{mem, mem-append}
use disk_pulse.Incidents.Db.{Incident}

-- `incident_notification_config`
pub record Config : Type 0 where
  pub enabled : Bool
  pub notify_administrators : Bool
  pub notify_project_owner : Bool
  pub notify_project_members : Bool
  pub extra_usernames : List String
  pub feishu_enabled : Bool
  pub email_enabled : Bool

-- The items that are not empty.
unfoldable pub named : List String → List String
named = select (λ item. not (str_eq item ""))

-- `dict.fromkeys`: every item once, in the order of its first occurrence.
unfoldable pub fromkeys : List String → List String → List String
unfolding mem
fromkeys kept [] = kept
fromkeys kept (x ∷ xs) = fromkeys (if mem x kept then kept else kept ++ x ∷ []) xs

abbrev pub owner_names : Option String → List String
owner_names none = []
owner_names (some owner) = owner ∷ []

unfoldable pub incident_recipient_usernames :
    Config → List String → Option String → List String → List String
unfolding named fromkeys
incident_recipient_usernames config administrators owner members =
    if not config.enabled
    then []
    else fromkeys [] (
        (if config.notify_administrators then named administrators else [])
        ++ ((if config.notify_project_owner then named (owner_names owner) else [])
            ++ ((if config.notify_project_members then named members else [])
                ++ named config.extra_usernames)))

abbrev pub should_send_incident_notification : (created reopened severity_escalated : Bool) → Bool
should_send_incident_notification created reopened severity_escalated =
    created || reopened || severity_escalated

-- The names of the members, by the join of the memberships with the users.
unfoldable pub member_names : Db → ℕ → List ProjectMembership → List String
member_names db p [] = []
member_names db p (m ∷ ms) =
    let rest = member_names db p ms in
    if m.project_id == p
    then elim (get_user db m.user_id) [
      | none ↦ rest
      | some user ↦ elim user.rd_username [ none ↦ rest | some name ↦ name ∷ rest ]
    ]
    else rest

abbrev owner_of : Db → Option ℕ → Option String
owner_of db none = none
owner_of db (some n) = elim (get_user db n) [ none ↦ none | some user ↦ user.rd_username ]

unfoldable pub project_recipients : Db → Option ℕ → Option String × List String
unfolding member_names
project_recipients db none = (none, [])
project_recipients db (some p) = elim (get_project db p) [
  | none ↦ (none, [])
  | some project ↦ (owner_of db project.in_charge_user_id, member_names db p db.memberships)
]

abbrev has_name : List String → Option String → Bool
has_name names none = false
has_name names (some name) = mem name names

unfoldable pub emails_of : List String → List User → List String
unfolding mem
emails_of names [] = []
emails_of names (user ∷ users) =
    let rest = emails_of names users in
    if has_name names user.rd_username
    then elim user.email [ none ↦ rest | some email ↦ email ∷ rest ]
    else rest

unfoldable pub recipient_emails : Db → List String → List String
unfolding emails_of named fromkeys
recipient_emails db usernames =
    fromkeys [] (named (emails_of (fromkeys [] (named usernames)) db.users))

abbrev pub incident_is_currently_silenced : Incident → Instant → Bool
incident_is_currently_silenced incident now = elim incident.silenced_until [
  | none ↦ false
  | some until ↦ ltb now until
]

pub data Event : Type 0 where
  created reopened severity_escalated : Event
  other : String → Event

abbrev is_known : Event → Bool
is_known (other _) = false
is_known _ = true

-- The recipients, and the people who get the Feishu message and the mail, if one is sent.
pub record Notified : Type 0 where
  pub recipients : List String
  pub feishu : Option (List String)
  pub email : Option (List String)

abbrev nobody : Notified
nobody = record { recipients = []; feishu = none; email = none }

abbrev some_of : List String → Option (List String)
some_of [] = none
some_of (x ∷ xs) = some (x ∷ xs)

unfoldable pub send : Config → Bool → Db → List String → Notified
send config feishu db [] = nobody
send config feishu db (x ∷ xs) = record {
  recipients = x ∷ xs;
  feishu = if config.feishu_enabled && feishu then some (x ∷ xs) else none;
  email = if config.email_enabled then some_of (recipient_emails db (x ∷ xs)) else none;
}

-- `feishu` tells whether Feishu itself is enabled.
unfoldable pub notify_incident : Config → Bool → Db → Incident → Event → Instant → Notified
unfolding send
notify_incident config feishu db incident event now =
    if not (is_known event)
    then nobody
    else if not config.enabled || incident_is_currently_silenced incident now
    then nobody
    else let (owner, members) = project_recipients db incident.project_id in
      send config feishu db
        (incident_recipient_usernames config db.super_admin_usernames owner members)

mem-named : (x : String) (xs : List String) → str_eq x "" ≡ false → mem x (named xs) ≡ mem x xs
unfolding named mem select
mem-named x [] h = refl
mem-named x (y ∷ ys) h = ground (arith, mem-named x ys h, eq_iff x y, eq_iff x "")

mem-fromkeys :
    (x : String) (kept xs : List String) → mem x (fromkeys kept xs) ≡ (mem x kept || mem x xs)
unfolding fromkeys mem
mem-fromkeys x kept [] = ground arith
mem-fromkeys x kept (y ∷ ys) = ground (
  arith,
  mem-fromkeys x kept ys,
  mem-fromkeys x (kept ++ y ∷ []) ys,
  mem-append x kept (y ∷ []),
  eq_iff x y,
)

mem-nil : (x : String) → mem x [] ≡ false
unfolding mem
mem-nil x = refl

mem-when :
    (x : String) (b : Bool) (xs : List String)
    → str_eq x "" ≡ false
    → mem x (if b then named xs else []) ≡ (b && mem x xs)
mem-when x true xs h = mem-named x xs h
mem-when x false xs h = mem-nil x

-- A person is told of incidents exactly if notifications are enabled and the configuration names the
-- person, or the group that the person is of: the administrators, the owner, or the members.
pub mem-incident_recipient_usernames :
    (config : Config) (administrators : List String) (owner : Option String) (members : List String)
    (x : String)
    → str_eq x "" ≡ false
    → mem x (incident_recipient_usernames config administrators owner members) ≡ (
        config.enabled
        && (config.notify_administrators && mem x administrators
            || config.notify_project_owner && mem x (owner_names owner)
            || config.notify_project_members && mem x members
            || mem x config.extra_usernames))
unfolding incident_recipient_usernames
mem-incident_recipient_usernames config administrators owner members x h =
    elim (Bool-cases config.enabled) [
      | inr e ↦ rw e (mem-nil x)
      | inl e ↦
          rw
            (
              e,
              mem-fromkeys,
              mem-append,
              mem-append,
              mem-append,
              mem-when x config.notify_administrators administrators h,
              mem-when x config.notify_project_owner (owner_names owner) h,
              mem-when x config.notify_project_members members h,
              mem-named x config.extra_usernames h,
            )
            (ground arith)
    ]

send_lem :
    (config : Config) (feishu : Bool) (db : Db) (names : List String)
    → let r = send config feishu db names in
      ((us : List String) → r.feishu ≡ some us → us ≡ r.recipients)
      × (r.recipients ≡ [] → r.email ≡ none)
unfolding send
send_lem config feishu db [] = (λ us h. ground (arith, h), λ h. refl)
send_lem config feishu db (x ∷ xs) = (λ us h. ground (arith, h), λ h. ground (arith, h))

-- Nobody is told of an incident while notifications are disabled or the incident is silenced; and
-- whoever gets a Feishu message is one of the recipients of the configuration.
pub notify_incident_silenced :
    (config : Config) (feishu : Bool) (db : Db) (incident : Incident) (event : Event)
    (now : Instant)
    → let r = notify_incident config feishu db incident event now in
      (not config.enabled || incident_is_currently_silenced incident now ≡ true
        → (r.recipients ≡ []) × (r.feishu ≡ none) × (r.email ≡ none))
      × ((us : List String) → r.feishu ≡ some us → us ≡ r.recipients)
      × (r.recipients ≡ [] → r.email ≡ none)
unfolding notify_incident
notify_incident_silenced config feishu db incident event now = elim (Bool-cases (is_known event)) [
  | inr e ↦ rw e (λ h. (refl, refl, refl), λ us h. ground (arith, h), λ h. refl)
  | inl e ↦ elim (Bool-cases (not config.enabled || incident_is_currently_silenced incident now)) [
    | inl k ↦ rw (e, k) (λ h. (refl, refl, refl), λ us h. ground (arith, h), λ h. refl)
    | inr k ↦
        let (to_recipients, no_mail) = send_lem config feishu db _ in
        rw (e, k) (λ h. ground (arith, h), to_recipients, no_mail)
  ]
]
