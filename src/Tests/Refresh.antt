-- ===== src/Tests/Refresh.antt =====
-- The session and refresh-token theorems at concrete requests.
use webbpulse_python.Base.{ℕ, arith, false, String, none, some, [], ◌∷◌, ◌≡◌, ◌≢◌, refl}
use webbpulse_python.Base.Assoc.{lookup, insert, sweep}
use webbpulse_python.Runtime.{iso, parse}
use webbpulse_python.Tests.{demo, demo-IsoLaws, differ}
use webbpulse_python.Identity.RefreshTokens.{
  RefreshTokenRecord, RefreshTokens, get, put, consume, revoke_family, set_family_auth_time,
}
use webbpulse_python.Identity.RefreshTokens.Rows.{EachRow}
use webbpulse_python.Identity.Sessions.Defs.{
  Settings, rotated, replayed, reuse, IssuedRefresh, PresentedSession, is_expired,
  past_absolute_cap, family_started_at, auth_time_of, start_family, mint, minted, expiry,
  first_generation,
}
use webbpulse_python.Identity.Sessions.Rotate.{
  Draws, rotate, rotate_row, rotate_live, after_consume, successor_of, within_grace,
  after_failed_consume, lost_row, grace_or_reuse,
}
use webbpulse_python.Identity.Sessions.Manage.{
  record_reauthentication, revoke_presented, revoke_row, peek, peek_found, peek_row,
}
use webbpulse_python.Identity.Sessions.Requests.{SignIn, signs_in, refreshes, steps_up, after, run}
use webbpulse_python.Identity.Sessions.Reuse.{rotates_once}
use webbpulse_python.Identity.Sessions.Revocation.{IsClosedIn, logout_is_final}
use webbpulse_python.Identity.Sessions.Theft.{
  IsLive, theft_closes_family, grace_replays, theft_is_final,
}
use webbpulse_python.Identity.Sessions.Cap.{session_ends}
use webbpulse_python.Identity.Sessions.Race.{revocation_race}
use webbpulse_python.Identity.Sessions.Peek.{CarriesOn, peek_then_rotate}

abbrev settings : Settings
settings = record {
  refresh_token_ttl = 30000000;
  refresh_absolute_ttl = 60000000;
  refresh_reuse_grace = 2000000;
}

abbrev draws : String → String → ℕ → Draws
draws token replay_token wall = record { token = token; replay_token = replay_token; wall = wall }

-- A row of a sign-in at the first second.
abbrev row : (token_hash family_id consumed_at successor_hash : String) → RefreshTokenRecord
row token_hash family_id consumed_at successor_hash = record {
  token_hash = token_hash;
  family_id = family_id;
  user_id = "ada";
  generation = 1;
  created_at = "Tx";
  expires_at = 31;
  consumed_at = consumed_at;
  successor_hash = successor_hash;
  revoked = false;
  device = "desktop";
  ip_first_seen = "";
  family_started_at = "Tx";
  auth_time = 1;
  amr = "pwd" ∷ [];
  ip_last_seen = "";
  client = "Web";
  platform = "Linux";
  browser = "Firefox";
}

abbrev live_row : RefreshTokenRecord
live_row = row "first" "family" "" ""

abbrev spent_row : RefreshTokenRecord
spent_row = row "first" "family" "Txx" "second"

abbrev other_row : RefreshTokenRecord
other_row = row "other" "friends" "" ""

abbrev live_store : RefreshTokens
live_store = ("first", live_row) ∷ ("other", other_row) ∷ []

abbrev spent_store : RefreshTokens
spent_store =
    ("first", spent_row) ∷ ("second", row "second" "family" "" "") ∷ ("other", other_row) ∷ []

-- What a refresh of the other family issues at the fifth second.
abbrev other_issued : IssuedRefresh
other_issued = record {
  token = "next";
  family_id = "friends";
  user_id = "ada";
  generation = 2;
  expires_at = 35;
  device = "desktop";
  auth_time = 1;
  amr = "pwd" ∷ [];
}

spent-IsLive : IsLive demo settings 5000000 5000000 spent_row
unfolding is_expired past_absolute_cap family_started_at parse
spent-IsLive = record { not_revoked = refl; not_expired = refl; within_cap = refl }

early-IsLive : IsLive demo settings 3000000 3000000 spent_row
unfolding is_expired past_absolute_cap family_started_at parse
early-IsLive = record { not_revoked = refl; not_expired = refl; within_cap = refl }

rotates_once_example :
    (rotate demo settings (draws "fourth" "spare4" 5000000) "first" "" "" 5000000 (
      run demo settings
        (refreshes (record {
          draws = draws "third" "spare3" 4000000;
          presented = "second";
          ip = "";
          user_agent = "";
          moment = 4000000;
        })
          ∷ [])
        (rotate demo settings
          (draws "second" "spare2" 3000000)
          "first"
          ""
          ""
          3000000
          live_store).1)).0.outcome
    ≢ rotated
unfolding rotate rotate_row get lookup is_expired past_absolute_cap family_started_at parse
    rotate_live mint put minted insert consume after_consume successor_of iso
rotates_once_example =
    rotates_once demo settings demo-IsoLaws (draws "second" "spare2" 3000000)
      (draws "fourth" "spare4" 5000000) "first" "" "" "" "" 3000000 5000000
      (refreshes (record {
        draws = draws "third" "spare3" 4000000;
        presented = "second";
        ip = "";
        user_agent = "";
        moment = 4000000;
      })
        ∷ [])
      live_store refl ((differ "third" "first" refl, differ "spare3" "first" refl), tt)
      (differ "fourth" "first" refl)

theft_is_final_example : other_issued.family_id ≢ spent_row.family_id
unfolding rotate rotate_row get lookup is_expired past_absolute_cap family_started_at parse
    rotate_live mint put minted insert consume after_consume successor_of iso run after
    record_reauthentication within_grace set_family_auth_time sweep revoke_family expiry
    auth_time_of after_failed_consume lost_row grace_or_reuse
theft_is_final_example =
    theft_is_final demo settings (draws "third" "spare3" 5000000) (draws "next" "spare4" 5000000)
      "first" "other" "" "" "" "" 5000000 5000000 spent_row (steps_up "family" 9 ∷ []) spent_store
      other_issued refl spent-IsLive refl (differ "third" "first" refl) refl (tt, tt) refl

logout_is_final_example : other_issued.family_id ≢ live_row.family_id
unfolding rotate rotate_row get lookup is_expired past_absolute_cap family_started_at parse
    rotate_live mint put minted insert consume after_consume successor_of iso run after
    record_reauthentication set_family_auth_time sweep revoke_family expiry auth_time_of
    revoke_presented revoke_row
logout_is_final_example =
    logout_is_final demo settings (draws "next" "spare4" 5000000) "first" "other" "" "" 5000000
      live_row (steps_up "family" 9 ∷ []) live_store other_issued refl (tt, tt) refl

abbrev sign_in : SignIn
sign_in = record {
  token = "first";
  family_id = "family";
  wall = 1000000;
  user_id = "ada";
  device = "";
  ip = "";
  user_agent = "";
  moment = 1000000;
  auth_time = none;
  amr = "pwd" ∷ [];
}

no_rows : EachRow (λ h x. x.family_id ≢ "family") []
unfolding get lookup
no_rows = record { at = λ h x e. absurd (cc (e)) }

session_ends_example :
    (rotate demo settings
      (draws "second" "spare2" 61000000)
      "first"
      ""
      ""
      61000000
      (run demo settings [] (after demo settings (signs_in sign_in) []))).0.issued
    ≡ none
unfolding get lookup after run start_family mint put insert minted first_generation
session_ends_example =
    session_ends demo settings demo-IsoLaws sign_in [] [] (draws "second" "spare2" 61000000) "first"
      "" "" 61000000
      (minted demo settings "first" 1000000
        (first_generation demo "family" "ada" "" "" "" 1000000 none ("pwd" ∷ [])))
      no_rows tt refl refl (omega arith)

theft_closes_family_example :
    let (result, s') =
      rotate demo settings (draws "third" "spare3" 5000000) "first" "" "" 5000000 spent_store in
    (result.outcome ≡ reuse) × (result.issued ≡ none) × EachRow (IsClosedIn "family") s'
unfolding get lookup within_grace parse
theft_closes_family_example =
    theft_closes_family demo settings (draws "third" "spare3" 5000000) "first" "" "" 5000000
      spent_row spent_store refl spent-IsLive refl (differ "third" "first" refl) refl

grace_replays_example :
    let (result, s') =
      rotate demo settings (draws "third" "spare3" 3000000) "first" "" "" 3000000 spent_store in
    (i : IssuedRefresh) × (result.outcome ≡ replayed)
    × (result.issued ≡ some i)
    × (i.token ≡ "spare3")
    × (i.generation ≡ 1)
    × (i.family_id ≡ "family")
    × (i.user_id ≡ "ada")
    × (i.amr ≡ "pwd" ∷ [])
unfolding get lookup within_grace parse
grace_replays_example =
    grace_replays demo settings (draws "third" "spare3" 3000000) "first" "" "" 3000000 spent_row
      (row "second" "family" "" "") spent_store refl refl early-IsLive refl
      (differ "third" "first" refl) (differ "third" "second" refl) refl

revocation_race_example :
    let (result, s') =
      rotate_live demo settings
        (draws "second" "spare2" 3000000)
        "first"
        live_row
        ""
        ""
        3000000
        (revoke_family "family" live_store).1 in
    (i : IssuedRefresh) × (y : RefreshTokenRecord) × (result.outcome ≡ rotated)
    × (result.issued ≡ some i)
    × (i.token ≡ "second")
    × (i.generation ≡ 2)
    × (i.user_id ≡ "ada")
    × (i.family_id ≡ "family")
    × (get "second" s' ≡ some y)
    × (y.family_id ≡ "family")
    × (y.revoked ≡ false)
unfolding get lookup
revocation_race_example =
    revocation_race demo settings (draws "second" "spare2" 3000000) "first" live_row "" "" 3000000
      live_store refl refl (differ "second" "first" refl)

abbrev shown : PresentedSession
shown = record {
  user_id = "ada";
  family_id = "family";
  auth_time = 1;
  amr = "pwd" ∷ [];
  device = "desktop";
}

peek_then_rotate_example :
    let (result, s') =
      rotate demo settings (draws "second" "spare2" 3000000) "first" "" "" 3000000 live_store in
    (i : IssuedRefresh) × (result.outcome ≡ rotated) × (result.issued ≡ some i) × CarriesOn shown i
unfolding peek peek_found peek_row get lookup is_expired past_absolute_cap family_started_at parse
    auth_time_of
peek_then_rotate_example =
    peek_then_rotate demo settings (draws "second" "spare2" 3000000) "first" "" "" 3000000
      live_store shown refl (differ "second" "first" refl)
