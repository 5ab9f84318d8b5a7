-- ===== src/Identity/DeviceGrant/Login.antt =====
-- From `/device/code` to the first token pair: start, the person's decision, and the polls.
use webbpulse_python.Base.{
  ℕ, zero, suc, ◌+◌, ◌*◌, Bool, true, false, not, ◌&&◌, ◌||◌, String, Option, none, some, List, [],
  ◌∷◌, ◌==◌, leb, if◌then◌else◌, joined, all_in, distinct_after, length, is_some, Result, ok,
  raised, nat_eq,
}
use webbpulse_python.Base.Assoc.{lookup}
use webbpulse_python.Runtime.{Runtime, microseconds, iso}
use webbpulse_python.Identity.DeviceCodes
use webbpulse_python.Identity.DeviceCodes.{
  DeviceCodeRecord, DeviceCodes, DeviceCodeStatus, pending, approved, denied, is_pending,
  is_approved, past, find_by_user_code, record_poll, slow_down, failed_lookups,
  record_failed_lookup,
}
use webbpulse_python.Identity.DeviceGrants
use webbpulse_python.Identity.DeviceGrants.{DeviceGrantRecord, DeviceGrants}
use webbpulse_python.Identity.DeviceGrant.Defs.{
  DeviceSettings, Hooks, Keys, DeviceGrantStores, DeviceApproval, DeviceCodeBody, TokenBody,
  normalize_user_code, format_user_code, user_code_hash, client_name, default_scopes, narrowed,
  held_scopes, load_permitted, successor, token_body, slow_down_step, user_code_attempts,
}

-- `_iso` of oauth_server.py, of whole seconds.
abbrev pub stamp : Runtime → ℕ → String
stamp rt seconds = iso rt (seconds * microseconds)

abbrev pub requested_or : List String → List String → List String
requested_or [] fallback = fallback
requested_or (x ∷ xs) fallback = x ∷ xs

-- What one poll draws, should it open a grant.
pub record GrantDraws : Type 0 where
  pub grant_id : String
  pub token : String

module _ (rt : Runtime) (cfg : DeviceSettings) where
  abbrev pub code_record :
      (device_code user_code client_id : String) → List String → (moment : ℕ) → DeviceCodeRecord
  code_record device_code user_code client_id scopes moment = record {
    device_code_hash = rt.sha256 device_code;
    user_code_hash = user_code_hash rt (normalize_user_code rt user_code);
    client_id = client_id;
    scopes = scopes;
    created_at = stamp rt moment;
    expires_at = moment + cfg.device_code_ttl;
    interval = cfg.device_poll_interval;
    status = pending;
    user_id = "";
    auth_time = 0;
    last_polled_at = 0;
  }

  abbrev pub code_body : (device_code user_code : String) → DeviceCodeBody
  code_body device_code user_code = record {
    device_code = device_code;
    user_code = user_code;
    expires_in = cfg.device_code_ttl;
    interval = cfg.device_poll_interval;
  }

  -- The loop of `start` over what it draws, a device code and a user code at each attempt.
  unfoldable pub store_codes :
      (attempts : ℕ)
      → List (String × String)
      → (client_id : String) → List String
      → (moment wall : ℕ) → DeviceCodes
      → Result DeviceCodeBody × DeviceCodes
  store_codes zero draws client_id scopes moment wall s = (raised "temporarily_unavailable", s)
  store_codes (suc n) [] client_id scopes moment wall s = (raised "temporarily_unavailable", s)
  store_codes (suc n) ((device_code, user_code) ∷ draws) client_id scopes moment wall s =
      let (stored, s') =
        DeviceCodes.put (code_record device_code user_code client_id scopes moment) wall s in
      let rest = store_codes n draws client_id scopes moment wall s' in
      if stored then (ok (code_body device_code user_code), s') else rest

  -- `start`; `requested` is the scope parameter, split.
  unfoldable pub start :
      (client_id : String) (requested : List String)
      → List (String × String)
      → (moment wall : ℕ) → DeviceCodes
      → Result DeviceCodeBody × DeviceCodes
  start client_id requested draws moment wall s =
      let scopes = requested_or (distinct_after [] requested) (default_scopes cfg) in
      if not (is_some (lookup client_id cfg.device_clients))
      then (raised "invalid_client", s)
      else if not (all_in cfg.device_scopes_supported (distinct_after [] requested))
      then (raised "invalid_scope", s)
      else if nat_eq (length scopes) 0
      then (raised "invalid_scope", s)
      else store_codes user_code_attempts draws client_id scopes moment wall s

  -- `DEVICE_USER_CODE_FAILURE_LIMIT`
  abbrev pub failure_limit : ℕ
  failure_limit = 10

  abbrev pub failure_window : ℕ
  failure_window = 900

  unfoldable pub lookups_exhausted : (user_id : String) (moment : ℕ) → DeviceCodes → Bool
  lookups_exhausted user_id moment s =
      leb failure_limit (failed_lookups rt user_id moment failure_window s)

  unfoldable pub note_failed_lookup : (user_id : String) (moment : ℕ) → DeviceCodes → DeviceCodes
  note_failed_lookup user_id moment s = (record_failed_lookup rt user_id moment failure_window s).1

module _ (rt : Runtime) (cfg : DeviceSettings) (h : Hooks) (keys : Keys) where
  abbrev pub approval_for :
      (normalized : String) → DeviceCodeRecord → Option h.User → Option DeviceApproval
  approval_for normalized r none = none
  approval_for normalized r (some user) = some (record {
    row = r;
    user_code = format_user_code normalized;
    client_name = client_name cfg r.client_id;
    scopes = narrowed (held_scopes rt cfg h keys user) r.scopes;
  })

  abbrev pub pending_record :
      (normalized user_id : String) (wall : ℕ) → Option DeviceCodeRecord → Option DeviceApproval
  pending_record normalized user_id wall none = none
  pending_record normalized user_id wall (some r) =
      if not (is_pending r.status) || past r.expires_at wall
      then none
      else approval_for normalized r (h.load_user_by_id user_id)

  -- `pending`
  unfoldable pub find_pending :
      (user_code user_id : String) (wall : ℕ) → DeviceCodes → Option DeviceApproval
  find_pending user_code user_id wall s =
      let normalized = normalize_user_code rt user_code in
      if normalized == ""
      then none
      else pending_record normalized user_id wall
          (find_by_user_code (user_code_hash rt normalized) wall s)

  abbrev joined_scopes : List String → String
  joined_scopes [] = ""
  joined_scopes (x ∷ []) = x
  joined_scopes (x ∷ y ∷ xs) = joined (x ∷ " " ∷ joined_scopes (y ∷ xs) ∷ [])

  unfoldable pub approval_signature : DeviceApproval → (user_id : String) → String
  approval_signature a user_id = keys.approval_mac (
      joined (
        "device-approval"
        ∷ "|"
        ∷ a.row.device_code_hash
        ∷ "|"
        ∷ joined_scopes a.scopes
        ∷ "|"
        ∷ user_id
        ∷ []))

  -- `decide` of the service
  unfoldable pub decide :
      DeviceApproval
      → (user_id : String) (allow : Bool) (auth_time wall : ℕ) → DeviceCodes
      → Bool × DeviceCodes
  decide a user_id allow auth_time wall s =
      if allow && nat_eq (length a.scopes) 0
      then (false, s)
      else DeviceCodes.decide a.row.device_code_hash (if allow then approved else denied) user_id
          (if allow then a.scopes else []) auth_time wall s

  -- `_open_grant`
  abbrev pub new_grant : DeviceCodeRecord → GrantDraws → (now : ℕ) → DeviceGrantRecord
  new_grant r d now = record {
    grant_id = d.grant_id;
    user_id = r.user_id;
    client_id = r.client_id;
    scopes = r.scopes;
    created_at = stamp rt now;
    expires_at = now + cfg.device_session_ttl;
    refresh_hash = rt.sha256 (successor rt cfg h keys d.grant_id (rt.sha256 d.token));
    auth_time = r.auth_time;
    previous_refresh_hash = "";
    generation = 1;
    revoked = false;
    last_used_at = stamp rt now;
    rotated_at = 0;
  }

  abbrev pub grant_for :
      DeviceCodeRecord
      → GrantDraws
      → (now : ℕ) → Option h.User
      → DeviceGrantStores
      → Result TokenBody × DeviceGrantStores
  grant_for r d now none s = (raised "access_denied", s)
  grant_for r d now (some user) s =
      let g = new_grant r d now in
      (
        ok (
            token_body rt cfg h keys g user (successor rt cfg h keys d.grant_id (rt.sha256 d.token))
              now),
        record s { grants = DeviceGrants.put g s.grants },
      )

  unfoldable pub open_grant :
      DeviceCodeRecord
      → GrantDraws
      → (now : ℕ) → DeviceGrantStores
      → Result TokenBody × DeviceGrantStores
  open_grant r d now s = grant_for r d now (load_permitted rt cfg h keys r.user_id) s

  unfoldable pub collected :
      GrantDraws
      → (now : ℕ) → Option DeviceCodeRecord × DeviceCodes
      → DeviceGrants
      → Result TokenBody × DeviceGrantStores
  unfolding open_grant
  collected d now (none, codes) grants =
      (raised "invalid_grant", record { codes = codes; grants = grants })
  collected d now (some r, codes) grants =
      let s : DeviceGrantStores = record { codes = codes; grants = grants } in
      if not (is_approved r.status) || r.user_id == ""
      then (raised "access_denied", s)
      else open_grant r d now s

  -- `poll` behind its read of the row.
  unfoldable pub poll_record :
      (code_hash client_id : String)
      → DeviceCodeRecord
      → GrantDraws
      → (moment : ℕ) → DeviceGrantStores
      → Result TokenBody × DeviceGrantStores
  unfolding collected
  poll_record code_hash client_id r d moment s =
      let (paced, codes) = record_poll code_hash moment r.interval s.codes in
      if leb r.expires_at moment
      then (raised "expired_token", s)
      else if not (r.client_id == client_id)
      then (raised "invalid_grant", s)
      else if not paced
      then (
        raised "slow_down",
        record s { codes = slow_down code_hash (r.interval + slow_down_step) codes },
      )
      else if is_pending r.status
      then (raised "authorization_pending", record s { codes = codes })
      else collected d moment (DeviceCodes.consume code_hash moment codes) s.grants

  unfoldable pub poll_found :
      (code_hash client_id : String)
      → Option DeviceCodeRecord
      → GrantDraws
      → (moment : ℕ) → DeviceGrantStores
      → Result TokenBody × DeviceGrantStores
  poll_found code_hash client_id none d moment s = (raised "invalid_grant", s)
  poll_found code_hash client_id (some r) d moment s = poll_record code_hash client_id r d moment s

  unfoldable pub poll :
      (device_code client_id : String)
      → GrantDraws
      → (moment wall : ℕ) → DeviceGrantStores
      → Result TokenBody × DeviceGrantStores
  poll device_code client_id d moment wall s =
      if device_code == "" || client_id == ""
      then (raised "invalid_request", s)
      else poll_found (rt.sha256 device_code) client_id
          (DeviceCodes.get (rt.sha256 device_code) true wall s.codes) d moment s
