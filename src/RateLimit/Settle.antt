-- ===== src/RateLimit/Settle.antt =====
-- What `check_key` makes of a claim that answered: what it grants, the decision, and the state it keeps.
use webbpulse_python.Base.{
  ℕ, ◌+◌, ◌-◌, min, true, false, String, Option, none, some, leb, ltb, if◌then◌else◌,
}
use webbpulse_python.RateLimit.Decision.{RateLimitDecision, ceil_until}
use webbpulse_python.RateLimit.Tiers.{Quota}
use webbpulse_python.RateLimit.Leases.{LeaseState, minute_seconds, day_seconds}

abbrev day_grant : Option ℕ → ℕ → ℕ → ℕ → ℕ
day_grant none day_count lease granted = granted
day_grant (some per_day) day_count lease granted = min granted (per_day + lease - day_count)

-- `granted`, from the counts after the claim: what of the lease is still within the quotas. The
-- truncated difference stands for `max(..., 0)` of the whole.
unfoldable pub granted : Quota → (lease minute_count day_count : ℕ) → ℕ
granted quota lease minute_count day_count =
    day_grant quota.per_day day_count lease (min lease (quota.per_minute + lease - minute_count))

-- `_allowed`: the tighter of the two quotas, for the headers.
abbrev tighter :
    (quota : Quota) (name : String) (now minute day minute_left : ℕ)
    → Option ℕ
    → Option ℕ
    → ℕ
    → RateLimitDecision
tighter quota name now minute day minute_left per_day day_remaining tokens =
    let by_minute : RateLimitDecision = record {
      allowed = true;
      limit = quota.per_minute;
      remaining = minute_left;
      reset_after = ceil_until (minute + minute_seconds) now;
      window_seconds = minute_seconds;
      failed_open = false;
      limit_name = name;
    } in
    elim per_day [
      | none ↦ by_minute
      | some cap ↦ elim day_remaining [
        | none ↦ by_minute
        | some day_left ↦
            if ltb (day_left + tokens) minute_left
            then record {
              allowed = true;
              limit = cap;
              remaining = day_left + tokens;
              reset_after = ceil_until (day + day_seconds) now;
              window_seconds = day_seconds;
              failed_open = false;
              limit_name = name;
            }
            else by_minute
      ]
    ]

unfoldable pub allowed_decision :
    LeaseState → (quota : Quota) (name : String) (now minute day : ℕ) → RateLimitDecision
allowed_decision st quota name now minute day =
    tighter quota name now minute day (st.minute_remaining + st.tokens) quota.per_day
      st.day_remaining st.tokens

unfoldable pub blocked_decision : LeaseState → (name : String) (now : ℕ) → RateLimitDecision
blocked_decision st name now = record {
  allowed = false;
  limit = st.blocked_limit;
  remaining = 0;
  reset_after = ceil_until st.blocked_until now;
  window_seconds = st.blocked_window;
  failed_open = false;
  limit_name = name;
}

-- The state once a claim has answered: `base` is the state that `_touch` found, or a new one.
abbrev day_left : Option ℕ → ℕ → Option ℕ
day_left none day_count = none
day_left (some per_day) day_count = some (per_day - day_count)

unfoldable pub written_state : LeaseState → Quota → (minute minute_count day_count : ℕ) → LeaseState
written_state base quota minute minute_count day_count = record base {
  written_minute = some minute;
  served = base.served + 1;
  minute_remaining = quota.per_minute - minute_count;
  day_remaining = day_left quota.per_day day_count;
}

-- Whether the day's quota was spent before this claim, and the window that then ends the refusal.
abbrev blocked_by : LeaseState → Option ℕ → (per_minute lease minute day day_count : ℕ) → LeaseState
blocked_by st none per_minute lease minute day day_count = record st {
  blocked_until = minute + minute_seconds;
  blocked_limit = per_minute;
  blocked_window = minute_seconds;
  tokens = 0;
}
blocked_by st (some per_day) per_minute lease minute day day_count =
    if leb (per_day + lease) day_count
    then record st {
      blocked_until = day + day_seconds;
      blocked_limit = per_day;
      blocked_window = day_seconds;
      tokens = 0;
    }
    else record st {
      blocked_until = minute + minute_seconds;
      blocked_limit = per_minute;
      blocked_window = minute_seconds;
      tokens = 0;
    }

-- The decision and the state behind a claim that answered.
unfoldable pub settle :
    LeaseState
    → (quota : Quota) (name : String) (now minute day lease minute_count day_count : ℕ)
    → RateLimitDecision × LeaseState
settle base quota name now minute day lease minute_count day_count =
    let st = written_state base quota minute minute_count day_count in
    let won = record st { tokens = st.tokens + (granted quota lease minute_count day_count - 1) } in
    let lost = blocked_by st quota.per_day quota.per_minute lease minute day day_count in
    if ltb 0 (granted quota lease minute_count day_count)
    then (allowed_decision won quota name now minute day, won)
    else (blocked_decision lost name now, lost)
