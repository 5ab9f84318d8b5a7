-- ===== src/Tests/Limits.antt =====
-- The rate limit theorems at concrete checks.
use webbpulse_python.Base.{
  ℕ, ◌-◌, ◌≤◌, min, true, false, String, Option, none, some, List, [], ◌∷◌, ◌≡◌, ◌⊎◌, refl, All,
  length,
}
use webbpulse_python.Base.Assoc.{lookup}
use webbpulse_python.Tests.{demo, demo_table, no_items}
use webbpulse_python.RateLimit.Table.{written}
use webbpulse_python.RateLimit.Decision.{floor_to, ceil_until}
use webbpulse_python.RateLimit.Classes.{LimitClass, classify, matches}
use webbpulse_python.RateLimit.Tiers.{
  Quota, TieredLimits, PlanLimits, combined, tiers_valid, limits_for,
}
use webbpulse_python.RateLimit.Fixed.{
  RateLimiter, clock, check_clock, clock_decision, counted, failed_open, key,
}
use webbpulse_python.RateLimit.Window.{allowed_in, window_count, window_allows}
use webbpulse_python.RateLimit.Leases.{claim, attempt, next_attempt, count_path, rollover_path}
use webbpulse_python.RateLimit.Settle.{granted}
use webbpulse_python.RateLimit.Leases.Claims.{Claimed, claim-Claimed}
use webbpulse_python.RateLimit.Leases.Grants.{
  Ask, asked, grants, grants_within_quota, left_of_minute, used_of_day,
}
use webbpulse_python.RateLimit.Choice.{First, classify-First, limits_for-total}

abbrev quota : Quota
quota = record { per_minute = 3; per_day = none }

abbrev ask : Ask
ask = record { lease = 2; expires = 86400; same_minute = true }

-- The table behind the first and the second claim of two requests.
abbrev once : demo_table.State
once = (claim demo_table "pk" "c" 2 60 86400 true no_items).1

abbrev twice : demo_table.State
twice = (claim demo_table "pk" "c" 2 60 86400 true once).1

claim-Claimed_example :
    Claimed demo_table "pk" "c" 2 60 no_items once
      (written (rollover_path "c" 2 60 86400).0 (no_items "pk"))
unfolding claim attempt next_attempt count_path rollover_path
claim-Claimed_example =
    claim-Claimed demo_table "pk" "c" 2 60 86400 no_items once
      (written (rollover_path "c" 2 60 86400).0 (no_items "pk")) true refl

grants_within_quota_example :
    (3 ≤ left_of_minute demo_table quota "pk" "c" 60 no_items)
    × ((cap : ℕ)
        → quota.per_day ≡ some cap
        → 3 ≤ cap - used_of_day demo_table quota "pk" "c" 60 no_items)
    × (quota.per_day ≡ none
        → 3 ≡ min (asked (ask ∷ ask ∷ [])) (left_of_minute demo_table quota "pk" "c" 60 no_items))
unfolding grants claim attempt next_attempt count_path rollover_path granted
grants_within_quota_example =
    grants_within_quota demo_table quota "pk" "c" 60 (ask ∷ ask ∷ []) no_items twice 3 refl

abbrev limiter : RateLimiter
limiter = record { namespace = "login"; anchor = clock; count_attribute = "count" }

abbrev moments : List ℕ
moments = 1000000 ∷ 2000000 ∷ 3000000 ∷ []

window_allows_example :
    2 ≡ min (length moments) (2 - window_count demo demo_table limiter 2 60 "ada" 0 no_items)
unfolding allowed_in check_clock clock_decision counted failed_open floor_to ceil_until key
window_allows_example =
    window_allows demo demo_table limiter 2 60 "ada" 0 moments 2 no_items (refl, (refl, (refl, tt)))
      refl

abbrev class : String → Option (List String) → LimitClass
class name prefixes = record {
  name = name;
  limit = 5;
  window_seconds = 60;
  methods = none;
  path_prefixes = prefixes;
  exempt_paths = [];
}

abbrev classes : List LimitClass
classes = class "auth" (some ("/auth" ∷ [])) ∷ class "all" none ∷ []

classify-First_example :
    ((c : LimitClass)
      → classify demo "GET" "/auth/login" classes ≡ some c
      → First demo "GET" "/auth/login" classes c)
    × (classify demo "GET" "/auth/login" classes ≡ none
        → All (λ b. matches demo b "GET" "/auth/login" ≡ false) classes)
classify-First_example = classify-First demo "GET" "/auth/login" classes

abbrev plan : PlanLimits
plan = record { token_limits = none; user_limits = some (combined quota); tenant_limits = none }

abbrev tiers : TieredLimits
tiers = record {
  plans = ("free", plan) ∷ [];
  default_plan = "free";
  read_methods = "GET" ∷ [];
  ip_classes = [];
  max_lease = 10;
  lease_divisor = 4;
}

limits_for-total_example :
    ((p : PlanLimits) × ((lookup "gold" tiers.plans ≡ some p)
        × (limits_for tiers "gold" ≡ some ("gold", p))))
    ⊎ ((lookup "gold" tiers.plans ≡ none)
        × ((p : PlanLimits) × ((lookup "free" tiers.plans ≡ some p)
              × (limits_for tiers "gold" ≡ some ("free", p)))))
unfolding tiers_valid lookup
limits_for-total_example = limits_for-total tiers "gold" refl
