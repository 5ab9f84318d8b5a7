-- ===== src/Tests/Accounts.antt =====
-- The link, lockout and one-time code theorems at concrete requests.
use webbpulse_python.Base.{
  ◌-◌, ◌<◌, arith, true, false, String, some, List, [], ◌∷◌, ◌≡◌, refl, raised,
}
use webbpulse_python.Base.Assoc.{lookup, insert}
use webbpulse_python.Runtime.{iso}
use webbpulse_python.Tests.{demo, demo-IsoLaws}
use webbpulse_python.Identity.Sessions.Defs.{is_expired}
use webbpulse_python.Identity.IdentityTokens.{IdentityTokens, get, consume}
use webbpulse_python.Identity.Links.{
  LinkSettings, confirmed, failed, consumed_concurrently, ttl_for, link_record, issue, confirm,
  confirm_row, redeem, rechecked, LinkRequest, issues, confirms, revokes, run_links,
}
use webbpulse_python.Identity.Links.Confirm.{Confirmed, confirm-Confirmed, issue-confirm}
use webbpulse_python.Identity.Links.Once.{goes_through, confirmed_once, redeem_race}
use webbpulse_python.Identity.Lockout.{
  LoginAttempt, AttemptOutcome, success, failure, locked, LoginAttempts, Policy, lockout_state,
  recent, record_attempt, parsed,
}
use webbpulse_python.Identity.Lockout.Streak.{Delays, failures_in_row, lockout_state-Delays}
use webbpulse_python.Identity.Lockout.Recent.{
  unlocked, success_unlocks, record_all, lockout_washed_out,
}
use webbpulse_python.Identity.Totp.{
  TotpFactorRecord, TotpFactors, Crypto, current_step, normalise_code, verify_code, verify_totp,
  burn, record_use, scan_steps, try_step, generate_code, truncated, text_length,
}
use webbpulse_python.Identity.Totp
use webbpulse_python.Identity.Totp.Watermark.{verify_all, steps_increase, burn_race}

abbrev link_settings : LinkSettings
link_settings = record {
  email_verification_ttl = 9000000;
  email_change_ttl = 9000000;
  password_reset_ttl = 4000000;
  frontend_base_url = "https://app/";
}

abbrev link_store : IdentityTokens
link_store =
    ("link", link_record demo link_settings "link" "ada" "verify_email" 1000000 1000000 []) ∷ []

abbrev requests : List LinkRequest
requests =
    issues "more" "ada" "verify_email" 3000000 3000000 []
    ∷ confirms "more" "verify_email" 4000000 4000000
    ∷ revokes "ada" "password_reset" 4000000
    ∷ []

confirmed_once_example :
    goes_through demo demo-IsoLaws
      (confirm demo "link" "verify_email" 5000000 5000000 (
        run_links demo link_settings requests
          (confirm demo "link" "verify_email" 2000000 2000000 link_store).1)).0
    ≡ false
unfolding confirm confirm_row redeem rechecked get lookup is_expired ttl_for consume iso
confirmed_once_example =
    confirmed_once demo demo-IsoLaws link_settings "link" "verify_email" "verify_email" 2000000
      5000000 2000000 5000000 requests link_store refl (refl, (tt, (tt, tt)))

confirm-Confirmed_example :
    Confirmed demo demo-IsoLaws "link" "password_reset" 2000000 link_store
      (confirm demo "link" "password_reset" 2000000 2000000 link_store)
confirm-Confirmed_example =
    confirm-Confirmed demo demo-IsoLaws "link" "password_reset" 2000000 2000000 link_store

issue-confirm_example :
    (confirm demo "more" "verify_email" 2000000 2000000
      (issue demo link_settings "more" "ada" "verify_email" 1000000 1000000 [] link_store).1).0
    ≡ confirmed (link_record demo link_settings "more" "ada" "verify_email" 1000000 1000000 [])
unfolding ttl_for
issue-confirm_example =
    issue-confirm demo demo-IsoLaws link_settings "more" "ada" "verify_email" 1000000 1000000
      2000000 2000000 [] link_store refl (omega arith)

redeem_race_example :
    (redeem demo "link" "verify_email" 2000000 2000000
      (redeem demo "link" "verify_email" 2000000 2000000 link_store).1).0
    ≡ failed consumed_concurrently
redeem_race_example =
    redeem_race demo demo-IsoLaws "link" "verify_email" "verify_email" 2000000 2000000 2000000
      2000000 link_store

abbrev try_at : String → AttemptOutcome → LoginAttempt
try_at at outcome = record {
  identity_key = "email#ada";
  attempted_at = at;
  outcome = outcome;
  user_id = "";
  ip = "";
  user_agent = "";
  expires_at = 0;
}

-- Two failures in one key.
abbrev attempts : LoginAttempts
attempts = record {
  items = ("email#ada", (1, try_at "Tx" failure) ∷ (2, try_at "Txx" failure) ∷ []) ∷ [];
  sequence = 2;
}

-- A delay of nine seconds from the second failure on.
abbrev policy : Policy
policy = record { threshold = 2; base_delay = 9000000; max_delay = 99000000; lookback = 99000000 }

lockout_state-Delays_example :
    Delays demo policy
      (failures_in_row demo (3000000 - 99000000) (recent 50 "email#ada" attempts))
      3000000
      (lockout_state demo policy (recent 50 "email#ada" attempts) 3000000)
lockout_state-Delays_example =
    lockout_state-Delays demo policy (recent 50 "email#ada" attempts) 3000000

success_unlocks_example :
    lockout_state demo policy
      (recent 50 "email#ada" (record_attempt (try_at "Txx" success) attempts))
      3000000
    ≡ unlocked
unfolding lookup
success_unlocks_example =
    success_unlocks demo policy (try_at "Txx" success) attempts 50 3000000 refl (refl, (refl, tt))
      (omega arith)

lockout_washed_out_example :
    lockout_state demo policy
      (recent 2 "email#ada"
        (record_all demo policy (try_at "Txxx" locked ∷ try_at "Txxx" locked ∷ []) attempts))
      3000000
    ≡ unlocked
unfolding lookup record_attempt insert
lockout_washed_out_example =
    lockout_washed_out demo policy "email#ada" (try_at "Txxx" locked ∷ try_at "Txxx" locked ∷ [])
      attempts 2 3000000
      (refl, (refl, ((refl, (refl, tt)), (refl, (refl, ((refl, (refl, (refl, tt))), tt))))))
      (omega arith)

-- Without the refused attempts the key is locked until nine seconds after its second failure.
failures_lock :
    (lockout_state demo policy (recent 2 "email#ada" attempts) 3000000).retry_at ≡ some 11000000
unfolding lockout_state recent lookup parsed
failures_lock = refl

-- Every step's code is the number of the step.
abbrev crypto : Crypto
crypto = record {
  hmac_sha1 = λ seed step. 0 ∷ 0 ∷ 0 ∷ step ∷ 0 ∷ [];
  open_seed = λ f. some "seed";
  isdigit = λ t. true;
}

abbrev factors : TotpFactors
factors =
    (
      "ada",
      record {
        user_id = "ada";
        secret_ciphertext = "";
        secret_nonce = "";
        wrapped_data_key = "";
        created_at = "";
        activated_at = "T";
        last_used_step = 0;
        secret_scheme = "";
      },
    )
    ∷ []

burn_race_example :
    (burn demo crypto "ada" (some 3) (burn demo crypto "ada" (some 3) factors).1).0 ≡ false
burn_race_example = burn_race demo crypto "ada" 3 factors

-- Six digits of which the last is beyond ASCII.
foreign_digit_raises : verify_code demo crypto "seed" "00000३" 0 60 1 ≡ raised "TypeError"
unfolding verify_code scan_steps try_step normalise_code generate_code truncated current_step
foreign_digit_raises = refl

steps_increase_example : 2 < 3
unfolding verify_totp burn record_use Totp.get lookup insert verify_code scan_steps normalise_code
    generate_code truncated current_step verify_all try_step
steps_increase_example =
    steps_increase demo crypto "ada" "0000xx" "000xxx" 60 90 2 3
      (record { user_id = "ada"; code = "0000xx"; now = 60 } ∷ []) factors (refl, refl) (refl, refl)
