-- ===== src/Tests/Devices.antt =====
-- The device grant's theorems at concrete requests.
use mathlib.Core.Path.{subst}
use webbpulse_python.Base.{
  Bool-cases, eq_iff, ◌==◌, ℕ, ◌-◌, ◌<◌, arith, true, false, String, none, some, List, [], ◌∷◌, ◌≡◌,
  ◌≢◌, refl, suffixed, ok, all_in, inl, inr,
}
use webbpulse_python.Base.Assoc.{lookup, insert, remove}
use webbpulse_python.Runtime.{iso}
use webbpulse_python.Tests.{demo, differ}
use webbpulse_python.Identity.Claims.{Claims}
use webbpulse_python.Identity.DeviceCodes
use webbpulse_python.Identity.DeviceCodes.{
  DeviceCodes, DeviceCodeRecord, pending, approved, find_by_user_code, record_poll, slow_down,
  failed_lookups,
}
use webbpulse_python.Identity.DeviceGrants
use webbpulse_python.Identity.DeviceGrants.{
  DeviceGrantRecord, DeviceGrants, revoke, revoke_each, revoke_all_for_user, list_for_user, rotate,
}
use webbpulse_python.Identity.DeviceGrant.Defs.{
  DeviceSettings, Hooks, Keys, DeviceGrantStores, TokenBody, split_refresh, refresh_token_text,
  partition_dot, token_body, held_scopes, load_permitted, successor, normalize_user_code,
  user_code_hash, default_scopes, client_name,
}
use webbpulse_python.Identity.DeviceGrant.Login.{
  GrantDraws, start, store_codes, lookups_exhausted, find_pending, approval_signature, decide, poll,
  poll_found, poll_record, collected, open_grant,
}
use webbpulse_python.Identity.DeviceGrant.Refresh.{
  refresh, refresh_found, refresh_grant, after_rotate, grace_or_reuse, within_grace, issue,
  revoke_all,
}
use webbpulse_python.Identity.DeviceGrant.Liveness.{check_liveness}
use webbpulse_python.Identity.DeviceGrant.Recall.{
  LivenessCall, cache_after, Fresh, check_liveness-Fresh,
}
use webbpulse_python.Identity.DeviceGrant.Requests.{
  DeviceRequest, starts, approves, polls, refreshes, issued, approve, step, run,
}
use webbpulse_python.Identity.DeviceGrant.Permitted.{Scoped, run-Scoped, issued_scope-Sub}
use webbpulse_python.Identity.DeviceGrant.Ended.{Named}
use webbpulse_python.Identity.DeviceGrant.Revoked.{Owned, revoke-final, revoke_all-final}
use webbpulse_python.Identity.DeviceGrant.Deadline.{session_deadline}
use webbpulse_python.Identity.DeviceGrant.Replay.{
  Presents, next_secret, refresh-replay, reuse-final,
}
use webbpulse_python.Identity.DeviceGrant.Collect.{poll-once}
use webbpulse_python.Identity.DeviceGrant.Tokens.{split_refresh-refresh_token_text}

abbrev settings : DeviceSettings
settings = record {
  device_clients = ("cli", "The tool") ∷ [];
  device_scopes_supported = "a" ∷ "b" ∷ [];
  device_explicit_scopes = "b" ∷ [];
  device_code_ttl = 600;
  device_poll_interval = 5;
  device_session_ttl = 1000;
  device_access_token_ttl = 60;
}

abbrev no_claims : Claims
no_claims = record {
  sub = "";
  scopes = none;
  scope = none;
  tenant_id = "";
  actor_kind = "";
  grant = "";
  sid = "";
  auth_time = none;
}

abbrev hooks : Hooks
hooks = record {
  User = String;
  load_user_by_id = λ user_id. some user_id;
  may_authenticate = λ user. true;
  claims_for = λ user. no_claims;
}

abbrev keys : Keys
keys = record { approval_mac = λ t. t; refresh_mac = λ t. suffixed "m" t }

abbrev no_codes : DeviceCodes
no_codes = record { items = []; reservations = []; failures = [] }

abbrev empty_stores : DeviceGrantStores
empty_stores = record { codes = no_codes; grants = [] }

empty-Scoped : Scoped settings.device_scopes_supported empty_stores
unfolding lookup
empty-Scoped = record { grants = λ k g e. absurd (cc (e)); codes = tt }

abbrev draws : GrantDraws
draws = record { grant_id = "g"; token = "t" }

abbrev login : List DeviceRequest
login =
    starts "cli" [] (("dc", "BCDFGHJK") ∷ []) 10 10
    ∷ approves "BCDF-GHJK" "u" "device-approval|dc|a|u" true 5 20 20
    ∷ []

run-Scoped_example :
    Scoped settings.device_scopes_supported (run demo settings hooks keys login empty_stores)
run-Scoped_example = run-Scoped demo settings hooks keys login empty_stores empty-Scoped

abbrev first_body : TokenBody
first_body = record {
  sub = "u";
  session_id = "g";
  client_id = "cli";
  auth_time = 5;
  scope = "a" ∷ [];
  expires_in = 60;
  refresh_token = "wpdr_g.mg|t";
  refresh_token_expires_in = 1000;
}

issued_scope-Sub_example : all_in settings.device_scopes_supported first_body.scope ≡ true
unfolding step run start store_codes DeviceCodes.put DeviceCodes.get approve find_pending
    approval_signature decide DeviceCodes.decide poll poll_found poll_record collected open_grant
    record_poll DeviceCodes.consume token_body lookup insert remove normalize_user_code
    user_code_hash default_scopes lookups_exhausted failed_lookups find_by_user_code held_scopes
    load_permitted successor client_name iso refresh_token_text DeviceGrants.put
issued_scope-Sub_example =
    issued_scope-Sub demo settings hooks keys login (polls "dc" "cli" draws 30 30) empty_stores
      first_body empty-Scoped refl

abbrev grant_row : (grant_id user_id : String) → DeviceGrantRecord
grant_row grant_id user_id = record {
  grant_id = grant_id;
  user_id = user_id;
  client_id = "cli";
  scopes = "a" ∷ [];
  created_at = "T";
  expires_at = 1000;
  refresh_hash = "s";
  auth_time = 5;
  previous_refresh_hash = "r";
  generation = 2;
  revoked = false;
  last_used_at = "T";
  rotated_at = 10;
}

abbrev two_grants : DeviceGrants
two_grants = ("g", grant_row "g" "u") ∷ ("k", grant_row "k" "v") ∷ []

abbrev two_stores : DeviceGrantStores
two_stores = record { codes = no_codes; grants = two_grants }

lookup-two_grants :
    (P : String → DeviceGrantRecord → Type 0)
    → P "g" (grant_row "g" "u")
    → P "k" (grant_row "k" "v")
    → (k : String) (g : DeviceGrantRecord) → lookup k two_grants ≡ some g
    → P k g
unfolding lookup
lookup-two_grants P p p' k g e = elim (Bool-cases ("g" == k)) [
  | inl same ↦ subst (λ x. P x g) ((eq_iff "g" k).0 same) (subst (P "g") (cc (rw same at e)) p)
  | inr other ↦ elim (Bool-cases ("k" == k)) [
    | inl same ↦
        subst (λ x. P x g) ((eq_iff "k" k).0 same) (subst (P "k") (cc (rw (other, same) at e)) p')
    | inr neither ↦ absurd (cc (rw (other, neither) at e))
  ]
]

two_grants-Named : Named two_grants
two_grants-Named = lookup-two_grants (λ k g. g.grant_id ≡ k) refl refl

abbrev body_of : (grant_id user_id secret : String) (left : ℕ) → TokenBody
body_of grant_id user_id secret left = record {
  sub = user_id;
  session_id = grant_id;
  client_id = "cli";
  auth_time = 5;
  scope = "a" ∷ [];
  expires_in = 60;
  refresh_token = refresh_token_text grant_id secret;
  refresh_token_expires_in = left;
}

-- A refresh of the first grant, and a device code that is collected later.
abbrev others : List DeviceRequest
others =
    refreshes "wpdr_g.s" "cli" 20 20
    ∷ polls "dc" "cli" (record { grant_id = "x"; token = "t" }) 30 30
    ∷ []

revoke-final_example : (body_of "k" "v" "mk|s" 960).session_id ≢ "g"
unfolding step run refresh refresh_found refresh_grant after_rotate issue DeviceGrants.get rotate
    revoke lookup insert split_refresh partition_dot token_body refresh_token_text held_scopes
    load_permitted successor iso poll poll_found DeviceCodes.get
revoke-final_example =
    revoke-final demo settings hooks keys "g" two_stores others (refreshes "wpdr_k.s" "cli" 40 40)
      (body_of "k" "v" "mk|s" 960) two_grants-Named (tt, (differ "x" "g" refl, tt)) tt refl

revoke_all-final_example : ¬ Owned "u" two_grants "k"
unfolding step run refresh refresh_found refresh_grant after_rotate issue DeviceGrants.get rotate
    revoke lookup insert split_refresh partition_dot token_body refresh_token_text held_scopes
    load_permitted successor iso poll poll_found DeviceCodes.get revoke_all revoke_all_for_user
    revoke_each list_for_user
revoke_all-final_example =
    revoke_all-final demo settings hooks keys "u" two_stores others
      (refreshes "wpdr_k.s" "cli" 40 40) (body_of "k" "v" "mk|s" 960) two_grants-Named
      (tt, ((λ owned. absurd (cc (owned.1))), tt)) tt refl

session_deadline_example : (40 < 1000) × (960 ≡ 1000 - 40)
unfolding step run refresh refresh_found refresh_grant after_rotate issue DeviceGrants.get rotate
    revoke lookup insert split_refresh partition_dot token_body refresh_token_text held_scopes
    load_permitted successor iso poll poll_found DeviceCodes.get
session_deadline_example =
    session_deadline demo settings hooks keys "g" 1000 two_stores (grant_row "g" "u") others
      "wpdr_g.mg|s" "cli" 40 40 (body_of "g" "u" "mg|mg|s" 960) two_grants-Named refl refl
      (tt, (differ "x" "g" refl, tt)) refl refl

g-Presents :
    Presents demo settings hooks keys "wpdr_g.s" "cli" "g" "s" (grant_row "g" "u") 20 two_grants
unfolding split_refresh partition_dot lookup
g-Presents = record {
  splits = refl;
  has_id = refl;
  has_client = refl;
  found = refl;
  same_client = refl;
  is_live = refl;
}

refresh-replay_example :
    ((refresh demo settings hooks keys "wpdr_g.s" "cli" 20 20 two_grants).0
      ≡ ok (
          token_body demo settings hooks keys
            (grant_row "g" "u")
            "u"
            (next_secret demo settings hooks keys "g" "s")
            20))
    × (refresh demo settings hooks keys "wpdr_g.s" "cli" 50 50
          (refresh demo settings hooks keys "wpdr_g.s" "cli" 20 20 two_grants).1
        ≡ (
          ok (
              token_body demo settings hooks keys
                (grant_row "g" "u")
                "u"
                (next_secret demo settings hooks keys "g" "s")
                50),
          (refresh demo settings hooks keys "wpdr_g.s" "cli" 20 20 two_grants).1,
        ))
unfolding load_permitted successor
refresh-replay_example =
    refresh-replay demo settings hooks keys "wpdr_g.s" "cli" "g" "s" (grant_row "g" "u") "u" 20 50
      20 50 two_grants g-Presents refl refl refl (differ "mg|s" "s" refl) (differ "s" "" refl)
      (omega arith) (omega arith) (omega arith)

old_token-Presents :
    Presents demo settings hooks keys "wpdr_g.r" "cli" "g" "r" (grant_row "g" "u") 50 two_grants
unfolding split_refresh partition_dot lookup
old_token-Presents = record {
  splits = refl;
  has_id = refl;
  has_client = refl;
  found = refl;
  same_client = refl;
  is_live = refl;
}

reuse-final_example : (body_of "k" "v" "mk|s" 940).session_id ≢ "g"
unfolding step run refresh refresh_found refresh_grant grace_or_reuse within_grace after_rotate
    issue DeviceGrants.get rotate revoke lookup insert split_refresh partition_dot token_body
    refresh_token_text held_scopes load_permitted successor iso poll poll_found DeviceCodes.get
reuse-final_example =
    reuse-final demo settings hooks keys "wpdr_g.r" "cli" "g" "r" (grant_row "g" "u") 50 50
      two_stores others (refreshes "wpdr_k.s" "cli" 60 60) (body_of "k" "v" "mk|s" 940)
      two_grants-Named old_token-Presents (differ "s" "r" refl) refl (differ "r" "" refl)
      (omega arith) (tt, (differ "x" "g" refl, tt)) tt refl

abbrev code_row : DeviceCodeRecord
code_row = record {
  device_code_hash = "dc";
  user_code_hash = "user-code:BCDFGHJK";
  client_id = "cli";
  scopes = "a" ∷ [];
  created_at = "T";
  expires_at = 600;
  interval = 5;
  status = approved;
  user_id = "u";
  auth_time = 5;
  last_polled_at = 0;
}

abbrev code_stores : DeviceGrantStores
code_stores = record {
  codes = record { items = ("dc", code_row) ∷ []; reservations = []; failures = [] };
  grants = [];
}

poll-once_example :
    issued
      (poll_record demo settings hooks keys "dc" "cli" code_row
        (record { grant_id = "x"; token = "t" })
        60
        (run demo settings hooks keys
          (starts "cli" [] (("other", "BCDFGHJK") ∷ []) 40 40 ∷ [])
          (poll_record demo settings hooks keys "dc" "cli" code_row draws 30 code_stores).1)).0
    ≡ none
unfolding poll_record collected open_grant record_poll DeviceCodes.consume token_body
    refresh_token_text lookup insert remove held_scopes load_permitted successor iso
poll-once_example =
    poll-once demo settings hooks keys "dc" "cli" "cli" code_row code_row draws
      (record { grant_id = "x"; token = "t" }) 30 60 code_stores
      (starts "cli" [] (("other", "BCDFGHJK") ∷ []) 40 40 ∷ []) first_body
      ((differ "other" "dc" refl, tt), tt) refl

split_refresh-refresh_token_text_example :
    split_refresh (refresh_token_text "g" "m.s") ≡ ("g", "m.s")
split_refresh-refresh_token_text_example =
    split_refresh-refresh_token_text "g" "m.s" refl (differ "g" "" refl) (differ "m.s" "" refl)

abbrev device_claims : Claims
device_claims = record no_claims { sub = "u"; grant = "device"; sid = "g" }

abbrev calls : List LivenessCall
calls = record { claims = device_claims; moment = 100; wall = 100; grants = two_grants } ∷ []

check_liveness-Fresh_example :
    Fresh
      (record { ttl = 30; max_entries = 10 })
      device_claims
      120
      120
      []
      calls
      (check_liveness
        (record { ttl = 30; max_entries = 10 })
        device_claims
        120
        120
        []
        (cache_after (record { ttl = 30; max_entries = 10 }) calls)).0
check_liveness-Fresh_example =
    check_liveness-Fresh (record { ttl = 30; max_entries = 10 }) device_claims 120 120 [] calls
