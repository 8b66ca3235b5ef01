-- ===== src/Audit/Redaction.antt =====
-- `redact_audit_payload` of backend/services/audit_service.py. Python's `casefold` and `isalpha`, and the
-- texts of dates and of other objects, are parameters. A set or a tuple is a list here, and a key of a
-- dictionary is its text.
pub mod Safe
pub mod Fixed
use Prim.Native.Char.{Char, code}
use Prim.Native.String.{[] as nil, ◌∷◌ as cons}
use disk_pulse.Prelude.{
  ℕ, String, Bool, true, false, ◌&&◌, ◌||◌, Option, none, some, List, [], ◌∷◌, ◌++◌, ◌==◌,
  if◌then◌else◌, any,
}
use disk_pulse.Prelude.Text.{prefix}

pub record Python (Date Object : Type 0) : Type 0 where
  pub casefold : String → String
  pub is_alpha : Char → Bool
  pub isoformat : Date → String
  pub str : Object → String

-- A value of the summaries. `number` is an `int` or a `float`.
mutual
  pub data Value (Date Object : Type 0) : Type 0 where
    null : Value Date Object
    boolean : Bool → Value Date Object
    number : ℕ → Value Date Object
    text : String → Value Date Object
    date : Date → Value Date Object
    object : Object → Value Date Object
    list : Values Date Object → Value Date Object
    dict : Entries Date Object → Value Date Object

  pub data Values (Date Object : Type 0) : Type 0 where
    no_values : Values Date Object
    value : Value Date Object → Values Date Object → Values Date Object

  pub data Entries (Date Object : Type 0) : Type 0 where
    no_entries : Entries Date Object
    entry : String → Value Date Object → Entries Date Object → Entries Date Object

-- `_SENSITIVE_KEY_PARTS + _PATH_KEY_PARTS`
abbrev pub hidden_key_parts : List String
hidden_key_parts =
    "password" ∷ "secret" ∷ "token" ∷ "api_key" ∷ "apikey" ∷ "authorization" ∷ "credential"
    ∷ "cookie" ∷ "prompt" ∷ "response" ∷ "request_payload" ∷ "response_payload" ∷ "body" ∷ "message"
    ∷ "content" ∷ "path" ∷ "directory" ∷ "filename" ∷ []

abbrev pub redacted : String
redacted = "[REDACTED]"

starts_with : String → String → Bool
starts_with nil s = true
starts_with (cons c p) nil = false
starts_with (cons c p) (cons d s) = code c == code d && starts_with p s

-- `part in key_name`
contains : String → String → Bool
unfolding starts_with
contains part nil = starts_with part nil
contains part (cons c s) = starts_with part (cons c s) || contains part s

-- "/" and "\\"
abbrev is_slash : Char → Bool
is_slash c = code c == 47 || code c == 92

abbrev starts_with_slash : String → Bool
starts_with_slash nil = false
starts_with_slash (cons c s) = is_slash c

module _ {Date Object : Type 0} (python : Python Date Object) where
  -- A letter, a colon and a slash.
  is_windows_path : String → Bool
  is_windows_path (cons c (cons d (cons e s))) = python.is_alpha c && code d == 58 && is_slash e
  is_windows_path _ = false

  unfoldable pub is_path : String → Bool
  unfolding is_windows_path
  is_path s = starts_with_slash s || is_windows_path s

  -- `(key or "").casefold()`
  abbrev key_name : Option String → String
  key_name none = python.casefold ""
  key_name (some key) = python.casefold key

  unfoldable pub is_hidden : Option String → Bool
  unfolding contains
  is_hidden key = any (λ part. contains part (key_name key)) hidden_key_parts

  -- `return _REDACTED` if the key is one to hide
  abbrev pub veil : Bool → Value Date Object → Value Date Object
  veil hidden v = if hidden then text redacted else v

  unfoldable mutual
    unfolding is_path is_hidden

    -- What is left to do once the key is harmless.
    pub redact_shown : Option String → Value Date Object → Value Date Object
    redact_shown key null = null
    redact_shown key (boolean b) = boolean b
    redact_shown key (number n) = number n
    redact_shown key (text s) = if is_path s then text redacted else text (prefix 512 s)
    redact_shown key (date d) = text (python.isoformat d)
    redact_shown key (object o) = text (prefix 512 (python.str o))
    redact_shown key (list vs) = list (redact_values key vs)
    redact_shown key (dict es) = dict (redact_entries es)

    pub redact_values : Option String → Values Date Object → Values Date Object
    redact_values key no_values = no_values
    redact_values key (value v vs) =
        let rest = redact_values key vs in value (veil (is_hidden key) (redact_shown key v)) rest

    pub redact_entries : Entries Date Object → Entries Date Object
    redact_entries no_entries = no_entries
    redact_entries (entry k v es) =
        let rest = redact_entries es in
        entry k (veil (is_hidden (some k)) (redact_shown (some k) v)) rest

  unfoldable pub redact_audit_payload : Option String → Value Date Object → Value Date Object
  unfolding redact_shown
  redact_audit_payload key v = veil (is_hidden key) (redact_shown key v)
