-- ===== src/Identity/Sessions/Manage.antt =====
-- The methods of `SessionService` that read or revoke families. The in-memory store implements
-- every operation, so the branches for a store that raises `NotImplementedError` do not arise.
use webbpulse_python.Base.{
  ℕ, ◌+◌, Bool, not, ◌&&◌, ◌||◌, String, Option, none, some, List, [], ◌∷◌, map, ◌==◌,
  if◌then◌else◌, or_text, keep, mem_text, text_lt,
}
use webbpulse_python.Runtime.{Runtime}
use webbpulse_python.Identity.RefreshTokens
use webbpulse_python.Identity.RefreshTokens.{RefreshTokenRecord, RefreshTokens, get, is_consumed}
use webbpulse_python.Identity.UserAgent.{oauth_client_of_device}
use webbpulse_python.Identity.Sessions.Defs.{
  Settings, PresentedSession, revoked, RotationResult, unknown_device, auth_time_of,
  past_absolute_cap, is_expired,
}
use webbpulse_python.Identity.Sessions.Rotate.{unknown_token, revoke_and_refuse}

pub record SessionSummary : Type 0 where
  pub family_id : String
  pub device : String
  pub ip : String
  pub started_at : String
  pub last_active_at : String
  pub expires_at : ℕ
  pub amr : List String
  pub last_ip : String
  pub client : String
  pub platform : String
  pub client_id : String
  pub browser : String

unfoldable pub record_reauthentication : String → ℕ → RefreshTokens → ℕ × RefreshTokens
record_reauthentication family_id auth_time s =
    if family_id == "" then (0, s) else RefreshTokens.set_family_auth_time family_id auth_time s

unfoldable pub family_amr : String → RefreshTokens → List String
family_amr family_id s = if family_id == "" then [] else RefreshTokens.family_amr family_id s

unfoldable pub revoke_family : String → RefreshTokens → ℕ × RefreshTokens
revoke_family = RefreshTokens.revoke_family

unfoldable pub revoke_device : String → String → RefreshTokens → ℕ × RefreshTokens
revoke_device = RefreshTokens.revoke_all_for_device

-- The sum over the families that the caller names, each revoked unless it is the excepted one.
unfoldable pub revoke_named : List String → String → RefreshTokens → ℕ × RefreshTokens
revoke_named [] except_family_id s = (0, s)
revoke_named (f ∷ fs) except_family_id s =
    let first : ℕ × RefreshTokens =
      if f == except_family_id then (0, s) else RefreshTokens.revoke_family f s in
    let rest = revoke_named fs except_family_id first.1 in (first.0 + rest.0, rest.1)

unfoldable pub revoke_all_for_user :
    String → Option (List String) → String → RefreshTokens → ℕ × RefreshTokens
unfolding revoke_named
revoke_all_for_user user_id (some family_ids) except_family_id s =
    revoke_named family_ids except_family_id s
revoke_all_for_user user_id none except_family_id s =
    RefreshTokens.revoke_all_for_user user_id except_family_id s

-- `sorted(..., key=lambda summary: summary.last_active_at, reverse=True)`, which is stable: equal
-- keys keep their order.
insert_by_activity : SessionSummary → List SessionSummary → List SessionSummary
insert_by_activity x [] = x ∷ []
insert_by_activity x (y ∷ ys) =
    if text_lt x.last_active_at y.last_active_at then y ∷ insert_by_activity x ys else x ∷ y ∷ ys

unfoldable pub sort_by_activity : List SessionSummary → List SessionSummary
unfolding insert_by_activity
sort_by_activity [] = []
sort_by_activity (x ∷ xs) = insert_by_activity x (sort_by_activity xs)

-- The row that a logout presents: its family is revoked, whatever state the row is in.
unfoldable pub revoke_row :
    Option RefreshTokenRecord → RefreshTokens → RotationResult × RefreshTokens
revoke_row none s = (unknown_token, s)
revoke_row (some r) s = revoke_and_refuse revoked r s

module _ (rt : Runtime) where
  unfoldable pub revoke_presented : String → RefreshTokens → RotationResult × RefreshTokens
  revoke_presented presented s = revoke_row (get (rt.sha256 presented) s) s

  unfoldable pub family_of : String → RefreshTokens → String
  family_of presented s =
      if presented == ""
      then ""
      else elim (get (rt.sha256 presented) s) [ none ↦ "" | some r ↦ r.family_id ]

  module _ (cfg : Settings) (wall : ℕ) where
    unfoldable pub is_live : ℕ → RefreshTokenRecord → Bool
    is_live moment r =
        not r.revoked
        && (not (is_expired r.expires_at moment) && not (past_absolute_cap rt cfg wall r moment))

    unfoldable pub peek_row : RefreshTokenRecord → ℕ → Option PresentedSession
    peek_row r moment =
        if r.revoked
        then none
        else if is_consumed r || not (r.successor_hash == "")
        then none
        else if is_expired r.expires_at moment || past_absolute_cap rt cfg wall r moment
        then none
        else some (record {
          user_id = r.user_id;
          family_id = r.family_id;
          auth_time = auth_time_of rt wall r;
          amr = r.amr;
          device = or_text r.device unknown_device;
        })

    unfoldable pub peek_found : Option RefreshTokenRecord → ℕ → Option PresentedSession
    unfolding peek_row
    peek_found none moment = none
    peek_found (some r) moment = peek_row r moment

    unfoldable pub peek : String → ℕ → RefreshTokens → Option PresentedSession
    unfolding peek_found
    peek presented moment s =
        if presented == "" then none else peek_found (get (rt.sha256 presented) s) moment

    unfoldable pub summary_of : RefreshTokenRecord → SessionSummary
    summary_of r = record {
      family_id = r.family_id;
      device = or_text r.device unknown_device;
      ip = r.ip_first_seen;
      started_at = or_text r.family_started_at r.created_at;
      last_active_at = r.created_at;
      expires_at = r.expires_at;
      amr = r.amr;
      last_ip = or_text r.ip_last_seen r.ip_first_seen;
      client = r.client;
      platform = r.platform;
      client_id = oauth_client_of_device r.device;
      browser = r.browser;
    }

    unfoldable pub list_for_user : String → ℕ → RefreshTokens → List SessionSummary
    unfolding is_live
    list_for_user user_id moment s =
        sort_by_activity (
          map summary_of
            (keep (is_live moment) (RefreshTokens.latest_by_family_for_user user_id s)))

    unfoldable pub owned_families : List SessionSummary → List String
    owned_families = map (λ x. x.family_id)

    unfoldable pub revoke_owned_family :
        String → String → ℕ → RefreshTokens → Option ℕ × RefreshTokens
    unfolding owned_families
    revoke_owned_family user_id family_id moment s =
        if family_id == ""
        then (none, s)
        else if not (mem_text family_id (owned_families (list_for_user user_id moment s)))
        then (none, s)
        else let (n, s') = RefreshTokens.revoke_family family_id s in (some n, s')
