-- ===== src/Identity/DeviceGrants.antt =====
-- The `device-grants` table: `DeviceGrantRecord` and `InMemoryDeviceGrantStore` of
-- src/webbpulse/identity/device_grant_storage.py. `wall` is the clock's reading in seconds.
use webbpulse_python.Base.{
  ℕ, ◌+◌, Bool, true, false, not, ◌&&◌, ◌||◌, String, Option, none, some, List, [], ◌∷◌, ◌==◌, leb,
  if◌then◌else◌, keep, is_some,
}
use webbpulse_python.Base.Assoc.{Assoc, lookup, insert, remove, values}

pub record DeviceGrantRecord : Type 0 where
  pub grant_id : String
  pub user_id : String
  pub client_id : String
  pub scopes : List String
  pub created_at : String
  pub expires_at : ℕ
  pub refresh_hash : String
  pub auth_time : ℕ
  pub previous_refresh_hash : String
  pub generation : ℕ
  pub revoked : Bool
  pub last_used_at : String
  pub rotated_at : ℕ

abbrev pub DeviceGrants : Type 0
DeviceGrants = Assoc DeviceGrantRecord

-- `DeviceGrantRecord.live`
abbrev pub live : DeviceGrantRecord → ℕ → Bool
live g wall = not g.revoked && not (leb g.expires_at wall)

unfoldable pub get : String → DeviceGrants → Option DeviceGrantRecord
get grant_id s = lookup grant_id s

unfoldable pub put : DeviceGrantRecord → DeviceGrants → DeviceGrants
put g s = insert g.grant_id g s

abbrev pub rotated :
    (presented_hash successor_hash used_at : String) (rotated_at : ℕ)
    → DeviceGrantRecord
    → DeviceGrantRecord
rotated presented_hash successor_hash used_at rotated_at g = record g {
  refresh_hash = successor_hash;
  previous_refresh_hash = presented_hash;
  generation = g.generation + 1;
  last_used_at = used_at;
  rotated_at = rotated_at;
}

abbrev pub rotate_row :
    (grant_id presented_hash : String)
    → (DeviceGrantRecord → DeviceGrantRecord)
    → Option DeviceGrantRecord
    → DeviceGrants
    → Bool × DeviceGrants
rotate_row grant_id presented_hash change none s = (false, s)
rotate_row grant_id presented_hash change (some g) s =
    if g.revoked || not (g.refresh_hash == presented_hash)
    then (false, s)
    else (true, insert grant_id (change g) s)

unfoldable pub rotate :
    (grant_id presented_hash successor_hash used_at : String) (rotated_at : ℕ)
    → DeviceGrants
    → Bool × DeviceGrants
rotate grant_id presented_hash successor_hash used_at rotated_at s =
    rotate_row grant_id presented_hash (rotated presented_hash successor_hash used_at rotated_at)
      (lookup grant_id s) s

unfoldable pub delete : String → DeviceGrants → Bool × DeviceGrants
delete grant_id s = (is_some (lookup grant_id s), remove grant_id s)

abbrev pub revoked_grant : DeviceGrantRecord → DeviceGrantRecord
revoked_grant g = record g { revoked = true }

abbrev pub revoke_row : String → Option DeviceGrantRecord → DeviceGrants → Bool × DeviceGrants
revoke_row grant_id none s = (false, s)
revoke_row grant_id (some g) s = (true, insert grant_id (revoked_grant g) s)

unfoldable pub revoke : String → DeviceGrants → Bool × DeviceGrants
revoke grant_id s = revoke_row grant_id (lookup grant_id s) s

unfoldable pub list_for_user : String → DeviceGrants → List DeviceGrantRecord
list_for_user user_id s = keep (λ g. g.user_id == user_id) (values s)

-- The loop of `revoke_all_for_user` over the rows that were listed.
unfoldable pub revoke_each : List DeviceGrantRecord → DeviceGrants → ℕ × DeviceGrants
unfolding revoke
revoke_each [] s = (0, s)
revoke_each (g ∷ rest) s =
    if g.revoked
    then revoke_each rest s
    else let (existed, s') = revoke g.grant_id s in
      let (n, s'') = revoke_each rest s' in ((if existed then n + 1 else n), s'')

unfoldable pub revoke_all_for_user : String → DeviceGrants → ℕ × DeviceGrants
revoke_all_for_user user_id s = revoke_each (list_for_user user_id s) s

-- The loop of `delete_all_for_user` over the rows that were listed.
unfoldable pub delete_each : List DeviceGrantRecord → DeviceGrants → ℕ × DeviceGrants
unfolding delete
delete_each [] s = (0, s)
delete_each (g ∷ rest) s =
    let (existed, s') = delete g.grant_id s in
    let (n, s'') = delete_each rest s' in ((if existed then n + 1 else n), s'')

unfoldable pub delete_all_for_user : String → DeviceGrants → ℕ × DeviceGrants
delete_all_for_user user_id s = delete_each (list_for_user user_id s) s
