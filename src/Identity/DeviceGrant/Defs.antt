-- ===== src/Identity/DeviceGrant/Defs.antt =====
-- The records of the device grant, user codes, refresh tokens, and what a product plugs in.
use text.Mathlib.Text.{starts_with}
use Prim.Native.Char.{code}
use webbpulse_python.Base.{
  ℕ, zero, suc, ◌-◌, Bool, true, false, not, ◌&&◌, ◌||◌, String, Option, none, some, List, [], ◌∷◌,
  ◌==◌, nat_eq, if◌then◌else◌, joined, drop_text, mem_text, within_texts, is_some,
}
use webbpulse_python.Base.Assoc.{Assoc, lookup}
use webbpulse_python.Runtime.{Runtime}
use webbpulse_python.Identity.Claims.{Claims, claims_scopes}
use webbpulse_python.Identity.DeviceCodes.{DeviceCodeRecord, DeviceCodes}
use webbpulse_python.Identity.DeviceGrants.{DeviceGrantRecord, DeviceGrants}

-- The settings that the service reads; a span is in seconds.
pub record DeviceSettings : Type 0 where
  pub device_clients : Assoc String
  pub device_scopes_supported : List String
  pub device_explicit_scopes : List String
  pub device_code_ttl : ℕ
  pub device_poll_interval : ℕ
  pub device_session_ttl : ℕ
  pub device_access_token_ttl : ℕ

-- The product's hooks, as the service calls them.
pub record Hooks : Type 1 where
  pub User : Type 0
  pub load_user_by_id : String → Option User
  -- whether `may_authenticate` lets the user in
  pub may_authenticate : User → Bool
  pub claims_for : User → Claims

-- The two HMACs, each under its own key derived from the master key.
pub record Keys : Type 0 where
  pub approval_mac : String → String
  pub refresh_mac : String → String

pub record DeviceGrantStores : Type 0 where
  pub codes : DeviceCodes
  pub grants : DeviceGrants

pub record DeviceApproval : Type 0 where
  pub row : DeviceCodeRecord
  pub user_code : String
  pub client_name : String
  pub scopes : List String

-- The answer to `/device/code` but for its addresses.
pub record DeviceCodeBody : Type 0 where
  pub device_code : String
  pub user_code : String
  pub expires_in : ℕ
  pub interval : ℕ

-- The answer to a token request: the claims of the access token that the grant stamps, the refresh
-- token, and how long both live.
pub record TokenBody : Type 0 where
  pub sub : String
  pub session_id : String
  pub client_id : String
  pub auth_time : ℕ
  pub scope : List String
  pub expires_in : ℕ
  pub refresh_token : String
  pub refresh_token_expires_in : ℕ

abbrev pub user_code_alphabet : String
user_code_alphabet = "BCDFGHJKLMNPQRSTVWXZ"

abbrev pub user_code_length : ℕ
user_code_length = 8

abbrev pub device_refresh_prefix : String
device_refresh_prefix = "wpdr_"

abbrev pub device_refresh_grace_seconds : ℕ
device_refresh_grace_seconds = 30

abbrev pub slow_down_step : ℕ
slow_down_step = 5

abbrev pub user_code_attempts : ℕ
user_code_attempts = 5

-- `character in text`, by its code
abbrev pub has_code : ℕ → String → Bool
has_code n String.[] = false
has_code n (String.◌∷◌ c s) = nat_eq (code c) n || has_code n s

abbrev pub text_length : String → ℕ
text_length String.[] = 0
text_length (String.◌∷◌ c s) = suc (text_length s)

-- `character in "- \t"`
abbrev is_filler : ℕ → Bool
is_filler n = nat_eq n b'-' || nat_eq n b' ' || nat_eq n 9

-- The characters of a typed code but for dashes, spaces and tabs.
abbrev cleaned : String → String
cleaned String.[] = String.[]
cleaned (String.◌∷◌ c s) =
    let rest = cleaned s in if is_filler (code c) then rest else String.◌∷◌ c rest

abbrev in_alphabet : String → Bool
in_alphabet String.[] = true
in_alphabet (String.◌∷◌ c s) = has_code (code c) user_code_alphabet && in_alphabet s

unfoldable pub normalize_user_code : Runtime → String → String
normalize_user_code rt value =
    if nat_eq (text_length (cleaned (rt.upper value))) user_code_length
      && in_alphabet (cleaned (rt.upper value))
    then cleaned (rt.upper value)
    else ""

-- `text[:n]`
abbrev pub take_text : ℕ → String → String
take_text zero s = String.[]
take_text (suc n) String.[] = String.[]
take_text (suc n) (String.◌∷◌ c s) = String.◌∷◌ c (take_text n s)

unfoldable pub format_user_code : String → String
format_user_code normalized = joined (take_text 4 normalized ∷ "-" ∷ drop_text 4 normalized ∷ [])

unfoldable pub user_code_hash : Runtime → String → String
user_code_hash rt normalized = rt.sha256 (joined ("user-code:" ∷ normalized ∷ []))

-- `text.partition(".")`: what stands before the first dot and behind it.
unfoldable pub partition_dot : String → String × String
partition_dot String.[] = ("", "")
partition_dot (String.◌∷◌ c s) =
    let (before, after) = partition_dot s in
    if nat_eq (code c) b'.' then ("", s) else (String.◌∷◌ c before, after)

abbrev pub both_given : String × String → String × String
both_given (grant_id, secret) =
    if grant_id == "" || secret == "" then ("", "") else (grant_id, secret)

-- `_split_refresh`
unfoldable pub split_refresh : String → String × String
unfolding partition_dot
split_refresh token =
    if not (starts_with token device_refresh_prefix)
    then ("", "")
    else both_given (partition_dot (drop_text 5 token))

unfoldable pub refresh_token_text : (grant_id secret : String) → String
refresh_token_text grant_id secret = joined (device_refresh_prefix ∷ grant_id ∷ "." ∷ secret ∷ [])

abbrev client_name_of : String → Option String → String
client_name_of client_id none = client_id
client_name_of client_id (some name) = name

unfoldable pub client_name : DeviceSettings → String → String
client_name cfg client_id = client_name_of client_id (lookup client_id cfg.device_clients)

abbrev pub without_texts : List String → List String → List String
without_texts explicit [] = []
without_texts explicit (x ∷ xs) =
    let rest = without_texts explicit xs in if mem_text x explicit then rest else x ∷ rest

-- `_default_scopes`
unfoldable pub default_scopes : DeviceSettings → List String
default_scopes cfg = without_texts cfg.device_explicit_scopes cfg.device_scopes_supported

abbrev held_of : Runtime → Claims → Option (List String)
held_of rt c =
    if not (is_some c.scope) && not (is_some c.scopes) then none else some (claims_scopes rt c)

abbrev pub narrowed : Option (List String) → List String → List String
narrowed none scopes = scopes
narrowed (some held) scopes = within_texts held scopes

abbrev permitted : (h : Hooks) → Option h.User → Option h.User
permitted h none = none
permitted h (some user) = if h.may_authenticate user then some user else none

module _ (rt : Runtime) (cfg : DeviceSettings) (h : Hooks) (keys : Keys) where
  open h use {User}

  unfoldable pub held_scopes : User → Option (List String)
  held_scopes user = held_of rt (h.claims_for user)

  -- `_load_permitted`
  unfoldable pub load_permitted : String → Option User
  load_permitted user_id = permitted h (h.load_user_by_id user_id)

  -- `_successor`
  unfoldable pub successor : (grant_id presented_hash : String) → String
  successor grant_id presented_hash =
      keys.refresh_mac (joined (grant_id ∷ "|" ∷ presented_hash ∷ []))

  -- `_token_body` but for the claims that the product adds.
  unfoldable pub token_body : DeviceGrantRecord → User → (secret : String) (now : ℕ) → TokenBody
  unfolding held_scopes refresh_token_text
  token_body g user secret now = record {
    sub = g.user_id;
    session_id = g.grant_id;
    client_id = g.client_id;
    auth_time = g.auth_time;
    scope = narrowed (held_scopes user) g.scopes;
    expires_in = cfg.device_access_token_ttl;
    refresh_token = refresh_token_text g.grant_id secret;
    refresh_token_expires_in = g.expires_at - now;
  }
