-- ===== src/Identity/Links.antt =====
-- `LinkService` of src/webbpulse/identity/verification.py, over the `identity-tokens` store. The
-- part of `confirm` behind its checks is a function of its own, `redeem`, because another request
-- can write in between.
pub mod Confirm
pub mod Once
use webbpulse_python.Base.{
  ℕ, ◌+◌, ◌/◌, ◌%◌, Bool, true, false, not, ◌&&◌, String, Option, none, some, List, [], ◌∷◌, ◌==◌,
  leb, nat_eq, max, if◌then◌else◌, joined,
}
use webbpulse_python.Base.Assoc.{Assoc}
use webbpulse_python.Runtime.{Runtime, microseconds, iso}
use webbpulse_python.RateLimit.Classes.{rstrip_slash}
use webbpulse_python.Identity.Sessions.Defs.{is_expired}
use webbpulse_python.Identity.IdentityTokens.{
  IdentityTokenRecord, IdentityTokens, get, put, consume, revoke_for_user, is_used,
}

-- The settings of a product that the service reads; the spans are in microseconds.
pub record LinkSettings : Type 0 where
  pub email_verification_ttl : ℕ
  pub email_change_ttl : ℕ
  pub password_reset_ttl : ℕ
  pub frontend_base_url : String

pub record IssuedLink : Type 0 where
  pub token : String
  pub url : String
  pub purpose : String
  pub user_id : String
  pub expires_at : ℕ

-- The reasons of `ConfirmationFailed`.
pub data Refusal : Type 0 where
  empty unknown wrong_purpose already_consumed expired consumed_concurrently : Refusal

pub data Confirmation : Type 0 where
  confirmed : IdentityTokenRecord → Confirmation
  failed : Refusal → Confirmation

unfoldable pub ttl_for : LinkSettings → String → ℕ
ttl_for cfg purpose =
    if purpose == "verify_email"
    then cfg.email_verification_ttl
    else if purpose == "change_email"
    then cfg.email_change_ttl
    else cfg.password_reset_ttl

-- `_LINK_PATHS.get(purpose, RESET_LINK_PATH)`
abbrev link_path : String → String
link_path purpose =
    if purpose == "verify_email"
    then "/verify-email"
    else if purpose == "change_email"
    then "/verify-email-change"
    else "/reset-password"

module _ (rt : Runtime) where
  unfoldable pub link_for : LinkSettings → (purpose token : String) → String
  link_for cfg purpose token =
      let page = joined (rstrip_slash cfg.frontend_base_url ∷ link_path purpose ∷ []) in
      if token == "" then page else joined (page ∷ "?" ∷ rt.urlencode "token" token ∷ [])

  abbrev pub link_record :
      LinkSettings
      → (token user_id purpose : String) → (moment wall : ℕ) → Assoc String
      → IdentityTokenRecord
  link_record cfg token user_id purpose moment wall attributes = record {
    token_hash = rt.sha256 token;
    purpose = purpose;
    user_id = user_id;
    created_at = iso rt wall;
    expires_at = (moment + ttl_for cfg purpose) / microseconds;
    consumed_at = "";
    attributes = attributes;
  }

  unfoldable pub issue :
      LinkSettings
      → (token user_id purpose : String) → (moment wall : ℕ) → Assoc String
      → IdentityTokens
      → IssuedLink × IdentityTokens
  unfolding link_for ttl_for
  issue cfg token user_id purpose moment wall attributes s = (
    record {
      token = token;
      url = link_for cfg purpose token;
      purpose = purpose;
      user_id = user_id;
      expires_at = (moment + ttl_for cfg purpose) / microseconds;
    },
    put (link_record cfg token user_id purpose moment wall attributes) s,
  )

  -- What the consumed record is checked for again.
  unfoldable pub rechecked :
      (purpose : String) (moment : ℕ)
      → Option IdentityTokenRecord × IdentityTokens
      → Confirmation × IdentityTokens
  rechecked purpose moment (none, s) = (failed consumed_concurrently, s)
  rechecked purpose moment (some consumed, s) =
      if not (consumed.purpose == purpose)
      then (failed wrong_purpose, s)
      else if is_expired consumed.expires_at moment
      then (failed expired, s)
      else (confirmed consumed, s)

  unfoldable pub redeem :
      (token_hash purpose : String) (moment wall : ℕ)
      → IdentityTokens
      → Confirmation × IdentityTokens
  unfolding rechecked
  redeem token_hash purpose moment wall s =
      rechecked purpose moment (consume token_hash (iso rt wall) (iso rt wall) s)

  unfoldable pub confirm_row :
      (token_hash purpose : String) (moment wall : ℕ)
      → Option IdentityTokenRecord
      → IdentityTokens
      → Confirmation × IdentityTokens
  confirm_row token_hash purpose moment wall none s = (failed unknown, s)
  confirm_row token_hash purpose moment wall (some existing) s =
      if not (existing.purpose == purpose)
      then (failed wrong_purpose, s)
      else if is_used existing
      then (failed already_consumed, s)
      else if is_expired existing.expires_at moment
      then (failed expired, s)
      else redeem token_hash purpose moment wall s

  unfoldable pub confirm :
      (presented purpose : String) (moment wall : ℕ)
      → IdentityTokens
      → Confirmation × IdentityTokens
  confirm presented purpose moment wall s =
      if presented == ""
      then (failed empty, s)
      else confirm_row (rt.sha256 presented) purpose moment wall (get (rt.sha256 presented) s) s

  -- `describe_expiry`, of a span in whole seconds.
  abbrev hours_phrase : ℕ → String
  hours_phrase hours =
      if nat_eq hours 1 then "1 hour" else joined (rt.decimal hours ∷ " hours" ∷ [])

  abbrev minutes_phrase : ℕ → String
  minutes_phrase minutes =
      if nat_eq minutes 1 then "1 minute" else joined (rt.decimal minutes ∷ " minutes" ∷ [])

  unfoldable pub describe_expiry : ℕ → String
  describe_expiry seconds =
      if leb 172800 seconds && nat_eq (seconds % 86400) 0
      then joined (rt.decimal (seconds / 86400) ∷ " days" ∷ [])
      else if leb 3600 seconds
      then hours_phrase (seconds / 3600)
      else minutes_phrase (max 1 (seconds / 60))

-- A request on links, with what it draws and reads.
pub data LinkRequest : Type 0 where
  issues :
      (token user_id purpose : String) (moment wall : ℕ) (attributes : Assoc String) → LinkRequest
  confirms : (presented purpose : String) (moment wall : ℕ) → LinkRequest
  revokes : (user_id purpose : String) (wall : ℕ) → LinkRequest

module _ (rt : Runtime) (cfg : LinkSettings) where
  abbrev pub after_link : LinkRequest → IdentityTokens → IdentityTokens
  after_link (issues token user_id purpose moment wall attributes) s =
      (issue rt cfg token user_id purpose moment wall attributes s).1
  after_link (confirms presented purpose moment wall) s =
      (confirm rt presented purpose moment wall s).1
  after_link (revokes user_id purpose wall) s = (revoke_for_user user_id purpose (iso rt wall) s).1

  unfoldable pub run_links : List LinkRequest → IdentityTokens → IdentityTokens
  run_links [] s = s
  run_links (q ∷ qs) s = run_links qs (after_link q s)
