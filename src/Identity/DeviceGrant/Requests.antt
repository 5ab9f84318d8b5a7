-- ===== src/Identity/DeviceGrant/Requests.antt =====
-- Sequences of requests to the device grant. A request carries its parameters, what the call draws
-- and its readings of the clock; `step` answers with the tokens that it issues, if it issues any.
use webbpulse_python.Base.{
  ℕ, Bool, true, false, not, String, Option, none, some, List, [], ◌∷◌, ◌==◌, if◌then◌else◌, Result,
  ok, raised,
}
use webbpulse_python.Runtime.{Runtime}
use webbpulse_python.Identity.DeviceCodes
use webbpulse_python.Identity.DeviceCodes.{DeviceCodes}
use webbpulse_python.Identity.DeviceGrants
use webbpulse_python.Identity.DeviceGrants.{DeviceGrants}
use webbpulse_python.Identity.DeviceGrant.Defs.{
  DeviceSettings, Hooks, Keys, DeviceGrantStores, DeviceApproval, TokenBody,
}
use webbpulse_python.Identity.DeviceGrant.Login.{
  GrantDraws, start, lookups_exhausted, note_failed_lookup, find_pending, approval_signature,
  decide, poll,
}
use webbpulse_python.Identity.DeviceGrant.Refresh.{refresh, revoke_token, revoke_grant, revoke_all}

-- How the approval route answers a signed-in person with a recent login.
pub data ApproveAnswer : Type 0 where
  limited not_found mismatched lost connected declined : ApproveAnswer

pub data DeviceRequest : Type 0 where
  starts :
      (client_id : String) (requested : List String) (draws : List (String × String))
      (moment wall : ℕ)
      → DeviceRequest
  approves :
      (user_code user_id signature : String) (allow : Bool) (auth_time moment wall : ℕ)
      → DeviceRequest
  polls : (device_code client_id : String) (draws : GrantDraws) (moment wall : ℕ) → DeviceRequest
  refreshes : (refresh_token client_id : String) (moment wall : ℕ) → DeviceRequest
  revokes_token : String → DeviceRequest
  revokes_grant : (grant_id user_id : String) → DeviceRequest
  revokes_all : String → DeviceRequest
  purges : String → DeviceRequest

abbrev pub issued : Result TokenBody → Option TokenBody
issued (ok b) = some b
issued (raised code) = none

module _ (rt : Runtime) (cfg : DeviceSettings) (h : Hooks) (keys : Keys) where
  abbrev pub decision_answer : Bool → Bool × DeviceCodes → ApproveAnswer × DeviceCodes
  decision_answer allow (false, s) = (lost, s)
  decision_answer allow (true, s) = ((if allow then connected else declined), s)

  abbrev pub answer_approval :
      (user_id signature : String) (allow : Bool) (auth_time moment wall : ℕ)
      → Option DeviceApproval
      → DeviceCodes
      → ApproveAnswer × DeviceCodes
  answer_approval user_id signature allow auth_time moment wall none s =
      (not_found, note_failed_lookup rt cfg user_id moment s)
  answer_approval user_id signature allow auth_time moment wall (some a) s =
      if not (signature == approval_signature rt cfg h keys a user_id)
      then (mismatched, s)
      else decision_answer allow (decide rt cfg h keys a user_id allow auth_time wall s)

  -- `device_approve` behind its checks of the origin and of the person.
  unfoldable pub approve :
      (user_code user_id signature : String) (allow : Bool) (auth_time moment wall : ℕ)
      → DeviceCodes
      → ApproveAnswer × DeviceCodes
  approve user_code user_id signature allow auth_time moment wall s =
      if lookups_exhausted rt cfg user_id moment s
      then (limited, s)
      else answer_approval user_id signature allow auth_time moment wall
          (find_pending rt cfg h keys user_code user_id wall s) s

  abbrev pub with_codes : DeviceGrantStores → DeviceCodes → Option TokenBody × DeviceGrantStores
  with_codes s codes = (none, record s { codes = codes })

  abbrev pub with_grants : DeviceGrantStores → DeviceGrants → Option TokenBody × DeviceGrantStores
  with_grants s grants = (none, record s { grants = grants })

  unfoldable pub step : DeviceRequest → DeviceGrantStores → Option TokenBody × DeviceGrantStores
  unfolding approve
  step (starts client_id requested draws moment wall) s =
      with_codes s (start rt cfg client_id requested draws moment wall s.codes).1
  step (approves user_code user_id signature allow auth_time moment wall) s =
      with_codes s (approve user_code user_id signature allow auth_time moment wall s.codes).1
  step (polls device_code client_id draws moment wall) s =
      let (answer, s') = poll rt cfg h keys device_code client_id draws moment wall s in
      (issued answer, s')
  step (refreshes refresh_token client_id moment wall) s =
      let (answer, grants) = refresh rt cfg h keys refresh_token client_id moment wall s.grants in
      (issued answer, record s { grants = grants })
  step (revokes_token token) s = with_grants s (revoke_token rt token s.grants).1
  step (revokes_grant grant_id user_id) s = with_grants s (revoke_grant grant_id user_id s.grants).1
  step (revokes_all user_id) s = with_grants s (revoke_all user_id s.grants).1
  step (purges user_id) s = (
    none,
    record s {
      codes = (DeviceCodes.delete_all_for_user user_id s.codes).1;
      grants = (DeviceGrants.delete_all_for_user user_id s.grants).1;
    },
  )

  unfoldable pub run : List DeviceRequest → DeviceGrantStores → DeviceGrantStores
  run [] s = s
  run (q ∷ qs) s = run qs (step q s).1
