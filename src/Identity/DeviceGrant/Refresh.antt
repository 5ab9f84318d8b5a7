-- ===== src/Identity/DeviceGrant/Refresh.antt =====
-- Refreshing and revoking a device grant.
use webbpulse_python.Base.{
  ℕ, ◌+◌, Bool, true, false, not, ◌&&◌, ◌||◌, String, Option, none, some, List, ◌==◌, leb, ltb,
  if◌then◌else◌, keep, Result, ok, raised,
}
use webbpulse_python.Runtime.{Runtime}
use webbpulse_python.Identity.DeviceGrants.{
  DeviceGrantRecord, DeviceGrants, live, get, rotate, revoke, revoke_all_for_user, list_for_user,
}
use webbpulse_python.Identity.DeviceGrant.Defs.{
  DeviceSettings, Hooks, Keys, TokenBody, split_refresh, load_permitted, successor, token_body,
  device_refresh_grace_seconds,
}
use webbpulse_python.Identity.DeviceGrant.Login.{stamp}

module _ (rt : Runtime) (cfg : DeviceSettings) (h : Hooks) (keys : Keys) where
  -- `_within_grace`
  unfoldable pub within_grace : DeviceGrantRecord → (presented next : String) (now wall : ℕ) → Bool
  within_grace g presented next now wall =
      live g wall
      && (not (g.previous_refresh_hash == "")
          && (g.previous_refresh_hash == presented
              && (ltb 0 g.rotated_at
                  && (leb g.rotated_at now
                      && (leb now (g.rotated_at + device_refresh_grace_seconds)
                          && g.refresh_hash == rt.sha256 next)))))

  abbrev pub issue_for :
      DeviceGrantRecord
      → (next : String) (now : ℕ) → Option h.User
      → DeviceGrants
      → Result TokenBody × DeviceGrants
  issue_for g next now none s = (raised "invalid_grant", (revoke g.grant_id s).1)
  issue_for g next now (some user) s = (ok (token_body rt cfg h keys g user next now), s)

  -- `_issue`
  unfoldable pub issue :
      DeviceGrantRecord → (next : String) (now : ℕ) → DeviceGrants → Result TokenBody × DeviceGrants
  issue g next now s = issue_for g next now (load_permitted rt cfg h keys g.user_id) s

  -- The grace window's decision, with the row as it is known then.
  unfoldable pub grace_or_reuse :
      (grant_id : String)
      → DeviceGrantRecord
      → (presented next : String) (now wall : ℕ) → DeviceGrants
      → Result TokenBody × DeviceGrants
  grace_or_reuse grant_id g presented next now wall s =
      if within_grace g presented next now wall
      then issue g next now s
      else if not (g.previous_refresh_hash == "") && g.previous_refresh_hash == presented
      then (raised "invalid_grant", (revoke grant_id s).1)
      else (raised "invalid_grant", s)

  -- The row read again after a rotation that was lost.
  unfoldable pub reloaded :
      (grant_id : String)
      → Option DeviceGrantRecord
      → (presented next : String) (now wall : ℕ) → DeviceGrants
      → Result TokenBody × DeviceGrants
  reloaded grant_id none presented next now wall s = (raised "invalid_grant", s)
  reloaded grant_id (some g) presented next now wall s =
      grace_or_reuse grant_id g presented next now wall s

  unfoldable pub after_rotate :
      (grant_id : String)
      → DeviceGrantRecord
      → (presented next : String) (now wall : ℕ) → Bool × DeviceGrants
      → Result TokenBody × DeviceGrants
  after_rotate grant_id g presented next now wall (true, s) = issue g next now s
  after_rotate grant_id g presented next now wall (false, s) =
      reloaded grant_id (get grant_id s) presented next now wall s

  -- `refresh` behind its read of the row.
  unfoldable pub refresh_grant :
      (grant_id secret client_id : String)
      → DeviceGrantRecord
      → (moment wall : ℕ) → DeviceGrants
      → Result TokenBody × DeviceGrants
  refresh_grant grant_id secret client_id g moment wall s =
      let presented = rt.sha256 secret in
      let next = successor rt cfg h keys grant_id presented in
      if not (g.client_id == client_id)
      then (raised "invalid_grant", s)
      else if not (live g wall)
      then (raised "invalid_grant", s)
      else if g.refresh_hash == presented
      then after_rotate grant_id g presented next moment wall
          (rotate grant_id presented (rt.sha256 next) (stamp rt moment) moment s)
      else grace_or_reuse grant_id g presented next moment wall s

  unfoldable pub refresh_found :
      (grant_id secret client_id : String)
      → Option DeviceGrantRecord
      → (moment wall : ℕ) → DeviceGrants
      → Result TokenBody × DeviceGrants
  refresh_found grant_id secret client_id none moment wall s = (raised "invalid_grant", s)
  refresh_found grant_id secret client_id (some g) moment wall s =
      refresh_grant grant_id secret client_id g moment wall s

  unfoldable pub refresh :
      (refresh_token client_id : String) (moment wall : ℕ)
      → DeviceGrants
      → Result TokenBody × DeviceGrants
  refresh refresh_token client_id moment wall s =
      let (grant_id, secret) = split_refresh refresh_token in
      if grant_id == "" || client_id == ""
      then (raised "invalid_request", s)
      else refresh_found grant_id secret client_id (get grant_id s) moment wall s

abbrev pub names_token : Runtime → DeviceGrantRecord → String → Bool
names_token rt g secret =
    g.refresh_hash == rt.sha256 secret
    || (not (g.previous_refresh_hash == "") && g.previous_refresh_hash == rt.sha256 secret)

abbrev pub revoke_named :
    Runtime
    → (grant_id secret : String) → Option DeviceGrantRecord
    → DeviceGrants
    → Bool × DeviceGrants
revoke_named rt grant_id secret none s = (false, s)
revoke_named rt grant_id secret (some g) s =
    if names_token rt g secret then revoke grant_id s else (false, s)

unfoldable pub revoke_token : Runtime → String → DeviceGrants → Bool × DeviceGrants
revoke_token rt token s =
    let (grant_id, secret) = split_refresh token in
    if grant_id == "" then (false, s) else revoke_named rt grant_id secret (get grant_id s) s

abbrev pub revoke_owned :
    (grant_id user_id : String) → Option DeviceGrantRecord → DeviceGrants → Bool × DeviceGrants
revoke_owned grant_id user_id none s = (false, s)
revoke_owned grant_id user_id (some g) s =
    if not (g.user_id == user_id) then (false, s) else revoke grant_id s

unfoldable pub revoke_grant : (grant_id user_id : String) → DeviceGrants → Bool × DeviceGrants
revoke_grant grant_id user_id s = revoke_owned grant_id user_id (get grant_id s) s

unfoldable pub revoke_all : (user_id : String) → DeviceGrants → ℕ × DeviceGrants
revoke_all user_id s = revoke_all_for_user user_id s

-- `list_grants`: the rows that it shows.
unfoldable pub list_grants : (user_id : String) (wall : ℕ) → DeviceGrants → List DeviceGrantRecord
list_grants user_id wall s = keep (λ g. live g wall) (list_for_user user_id s)
