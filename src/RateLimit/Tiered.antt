-- ===== src/RateLimit/Tiered.antt =====
-- `TieredRateLimiter.check_key` and `check_subject`, over one container's cache and the table.
use webbpulse_python.Base.{
  ℕ, ◌+◌, ◌*◌, ◌-◌, Bool, true, false, String, Option, none, some, List, [], ◌∷◌, ◌==◌, leb, ltb,
  if◌then◌else◌, joined,
}
use webbpulse_python.Base.Assoc.{insert}
use webbpulse_python.Runtime.{Runtime}
use webbpulse_python.RateLimit.Table.{Table, Item, or_value}
use webbpulse_python.RateLimit.Decision.{RateLimitDecision, floor_to, ceil_until, tick}
use webbpulse_python.RateLimit.Tiers.{
  Quota, TieredLimits, RateLimitSubject, PlanLimits, LimitScope, RequestClass, scopes, scope_name,
  select, for_scope, key_for, limits_for, request_class, ScopeLimits,
}
use webbpulse_python.RateLimit.Leases.{
  Cache, LeaseState, touch, store, new_state, lease_size, claim, minute_count, day_count,
  minute_seconds, day_seconds,
}
use webbpulse_python.RateLimit.Settle.{settle, allowed_decision, blocked_decision}

-- What one check is about: the name in its headers, its cache key and partition key, its counter,
-- quota, and the clock's reading with the minute and the day that hold it.
pub record Check : Type 0 where
  pub name : String
  pub cache_key : String
  pub pk : String
  pub counter : String
  pub quota : Quota
  pub now : ℕ
  pub minute : ℕ
  pub day : ℕ

pub record TieredRateLimiter : Type 0 where
  pub namespace : String
  pub tiers : TieredLimits
  pub cache_size : ℕ

unfoldable pub new_check :
    Runtime → TieredRateLimiter → (scope key : String) → Quota → (counter : String) → ℕ → Check
new_check rt l scope key quota counter now =
    let day = floor_to day_seconds now in
    let pk = joined (l.namespace ∷ "#" ∷ scope ∷ "#" ∷ key ∷ "#" ∷ rt.decimal day ∷ []) in
    record {
      name = joined (scope ∷ "-" ∷ counter ∷ []);
      cache_key = joined (pk ∷ "#" ∷ counter ∷ []);
      pk = pk;
      counter = counter;
      quota = quota;
      now = now;
      minute = floor_to minute_seconds now;
      day = day;
    }

-- `state.written_minute is not None and state.written_minute >= minute`
abbrev pub written_since : ℕ → Option LeaseState → Bool
written_since minute none = false
written_since minute (some st) = elim st.written_minute [ none ↦ false | some w ↦ leb minute w ]

-- The first part, under the lock: an answer from memory, if there is one.
abbrev pub from_memory : Check → Option LeaseState → Option (RateLimitDecision × LeaseState)
from_memory c none = none
from_memory c (some st) =
    if ltb c.now (st.blocked_until * tick)
    then some (blocked_decision st c.name c.now, st)
    else if ltb 0 st.tokens
    then (let st' = record st { tokens = st.tokens - 1; served = st.served + 1 } in
        some (allowed_decision st' c.quota c.name c.now c.minute c.day, st'))
    else none

unfoldable pub failed_check : TieredRateLimiter → Check → RateLimitDecision
failed_check l c = record {
  allowed = true;
  limit = c.quota.per_minute;
  remaining = c.quota.per_minute;
  reset_after = ceil_until (c.minute + minute_seconds) c.now;
  window_seconds = minute_seconds;
  failed_open = true;
  limit_name = l.namespace;
}

-- The cache behind a claim: the state is replaced where it stands, or stored anew.
abbrev pub kept : TieredRateLimiter → Check → Option LeaseState → LeaseState → Cache → Cache
kept l c none st cache = store l.cache_size c.cache_key st cache
kept l c (some _) st cache = insert c.cache_key st cache

abbrev pub base_state : Check → Option LeaseState → LeaseState
base_state c none = new_state c.minute
base_state c (some st) = st

module _ (t : Table) (l : TieredRateLimiter) where
  open t use {State}

  unfoldable pub after_claim :
      Check → (lease : ℕ) → Option Item × State → Cache → RateLimitDecision × Cache × State
  after_claim c lease (none, s) cache = (failed_check l c, cache, s)
  after_claim c lease (some attributes, s) cache =
      let (found, cache') = touch c.cache_key c.minute cache in
      let (decision, st) =
        settle (base_state c found) c.quota c.name c.now c.minute c.day lease
          (or_value (attributes (minute_count c.counter)) lease)
          (or_value (attributes (day_count c.counter)) lease) in
      (decision, kept l c found st cache', s)

  unfoldable pub answer :
      Check
      → Option LeaseState
      → Option (RateLimitDecision × LeaseState)
      → Cache
      → State
      → RateLimitDecision × Cache × State
  answer c found (some (decision, st)) cache s = (decision, insert c.cache_key st cache, s)
  answer c found none cache s =
      let lease = lease_size l.tiers found c.quota in
      after_claim c lease
        (claim t c.pk c.counter lease c.minute (c.day + day_seconds) (written_since c.minute found)
          s)
        cache

  unfoldable pub run_check : Check → Cache → State → RateLimitDecision × Cache × State
  unfolding answer after_claim
  run_check c cache s =
      let (found, cache') = touch c.cache_key c.minute cache in
      answer c found (from_memory c found) cache' s

  module _ (rt : Runtime) where
    unfoldable pub check_key :
        (scope key : String)
        → Quota
        → (counter : String) → ℕ
        → Cache
        → State
        → RateLimitDecision × Cache × State
    unfolding run_check
    check_key scope key quota counter now cache s =
        run_check (new_check rt l scope key quota counter now) cache s

    -- The key of a subject for a scope, and what its plan counts there, if it counts anything.
    abbrev pub selected :
        Option String → Option ScopeLimits → RequestClass → Option (String × String × Quota)
    selected (some key) (some limits) class =
        if key == "" then none else elim (select limits class) [
          | none ↦ none
          | some (counter, quota) ↦ some (key, counter, quota)
        ]
    selected _ _ class = none

    -- The loop over the scopes: the decisions so far, newest last, or the first refusal.
    unfoldable pub check_scopes :
        RateLimitSubject
        → PlanLimits
        → RequestClass
        → ℕ
        → List LimitScope
        → Cache
        → State
        → Option RateLimitDecision × List RateLimitDecision × Cache × State
    check_scopes subject plan class now [] cache s = (none, [], cache, s)
    check_scopes subject plan class now (scope ∷ rest) cache s =
        elim (selected (key_for subject scope) (for_scope plan scope) class) [
          | none ↦ check_scopes subject plan class now rest cache s
          | some (key, counter, quota) ↦
              let (decision, cache', s') =
                check_key (scope_name scope) key quota counter now cache s in
              elim decision.allowed [
                | false ↦ (some decision, [], cache', s')
                | true ↦
                    let (refusal, decisions, cache'', s'') =
                      check_scopes subject plan class now rest cache' s' in
                    (refusal, decision ∷ decisions, cache'', s'')
              ]
        ]

  -- `min(enforced, key=lambda decision: decision.remaining)`: the first of the least.
  abbrev pub least_remaining : RateLimitDecision → List RateLimitDecision → RateLimitDecision
  least_remaining best [] = best
  least_remaining best (d ∷ ds) =
      least_remaining
        (if d.failed_open then best else if ltb d.remaining best.remaining then d else best) ds

  -- The decisions with the failed-open ones left out, or the first decision if none is left.
  abbrev pub first_enforced :
      List RateLimitDecision → Option (RateLimitDecision × List RateLimitDecision)
  first_enforced [] = none
  first_enforced (d ∷ ds) = if d.failed_open then first_enforced ds else some (d, ds)

  unfoldable pub tightest : List RateLimitDecision → Option RateLimitDecision
  tightest [] = none
  tightest (d ∷ ds) = elim (first_enforced (d ∷ ds)) [
    | none ↦ some d
    | some (best, rest) ↦ some (least_remaining best rest)
  ]

  unfoldable pub check_subject :
      (rt : Runtime)
      → RateLimitSubject
      → (method : String) → ℕ
      → Cache
      → State
      → Option RateLimitDecision × Cache × State
  unfolding check_scopes tightest
  check_subject rt subject method now cache s = elim (limits_for l.tiers subject.plan) [
    | none ↦ (none, cache, s)
    | some (_, plan) ↦
        let (refusal, decisions, cache', s') =
          check_scopes rt subject plan (request_class rt l.tiers method) now scopes cache s in
        elim refusal [
          | some decision ↦ (some decision, cache', s')
          | none ↦ (tightest decisions, cache', s')
        ]
  ]
