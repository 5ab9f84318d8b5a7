-- ===== src/RateLimit/Tiers.antt =====
-- `Quota`, `ScopeLimits`, `PlanLimits`, `RateLimitSubject` and `TieredLimits`.
use webbpulse_python.Base.{
  ℕ, Bool, true, false, ◌||◌, String, Option, none, some, List, [], ◌∷◌, map, ltb, if◌then◌else◌,
  mem_text, is_some,
}
use webbpulse_python.Base.Assoc.{Assoc, lookup}
use webbpulse_python.Runtime.{Runtime}

pub record Quota : Type 0 where
  pub per_minute : ℕ
  pub per_day : Option ℕ

-- `Quota.__post_init__`: `none` is the `ValueError`.
abbrev day_valid : Option ℕ → Bool
day_valid none = true
day_valid (some n) = ltb 0 n

unfoldable pub new_quota : ℕ → Option ℕ → Option Quota
new_quota per_minute per_day =
    if ltb per_minute 1
    then none
    else if day_valid per_day
    then some (record { per_minute = per_minute; per_day = per_day })
    else none

pub data RequestClass : Type 0 where
  read write : RequestClass

pub data LimitScope : Type 0 where
  token user tenant : LimitScope

abbrev pub scopes : List LimitScope
scopes = token ∷ user ∷ tenant ∷ []

abbrev pub scope_name : LimitScope → String
scope_name token = "token"
scope_name user = "user"
scope_name tenant = "tenant"

pub record ScopeLimits : Type 0 where
  pub reads : Option Quota
  pub writes : Option Quota
  pub shared : Bool

unfoldable pub combined : Quota → ScopeLimits
combined quota = record { reads = some quota; writes = some quota; shared = true }

abbrev pub class_name : RequestClass → String
class_name read = "read"
class_name write = "write"

abbrev pub quota_of : ScopeLimits → RequestClass → Option Quota
quota_of l read = l.reads
quota_of l write = l.writes

abbrev named : ScopeLimits → RequestClass → Option Quota → Option (String × Quota)
named l c none = none
named l c (some quota) = some ((if l.shared then "all" else class_name c), quota)

unfoldable pub select : ScopeLimits → RequestClass → Option (String × Quota)
select l c = named l c (quota_of l c)

pub record PlanLimits : Type 0 where
  pub token_limits : Option ScopeLimits
  pub user_limits : Option ScopeLimits
  pub tenant_limits : Option ScopeLimits

unfoldable pub for_scope : PlanLimits → LimitScope → Option ScopeLimits
for_scope p token = p.token_limits
for_scope p user = p.user_limits
for_scope p tenant = p.tenant_limits

pub record RateLimitSubject : Type 0 where
  pub plan : String
  pub tenant_key : Option String
  pub user_key : Option String
  pub token_key : Option String

unfoldable pub key_for : RateLimitSubject → LimitScope → Option String
key_for s token = s.token_key
key_for s user = s.user_key
key_for s tenant = s.tenant_key

-- `TieredLimits` but for its resolver, which the middleware calls.
pub record TieredLimits : Type 0 where
  pub plans : Assoc PlanLimits
  pub default_plan : String
  pub read_methods : List String
  pub ip_classes : List String
  pub max_lease : ℕ
  pub lease_divisor : ℕ

-- `TieredLimits.__post_init__`: whether construction succeeds.
unfoldable pub tiers_valid : TieredLimits → Bool
tiers_valid t =
    if is_some (lookup t.default_plan t.plans)
    then (if ltb t.max_lease 1 || ltb t.lease_divisor 1 then false else true)
    else false

abbrev applied : TieredLimits → String → Option PlanLimits → Option (String × PlanLimits)
applied t plan (some limits) = some (plan, limits)
applied t plan none = elim (lookup t.default_plan t.plans) [
  | none ↦ none
  | some limits ↦ some (t.default_plan, limits)
]

-- `none` is a `KeyError`, which a valid value never raises.
unfoldable pub limits_for : TieredLimits → String → Option (String × PlanLimits)
limits_for t plan = applied t plan (lookup plan t.plans)

unfoldable pub request_class : Runtime → TieredLimits → String → RequestClass
request_class rt t method =
    if mem_text (rt.upper method) (map rt.upper t.read_methods) then read else write
