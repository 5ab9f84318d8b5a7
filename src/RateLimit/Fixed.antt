-- ===== src/RateLimit/Fixed.antt =====
-- `RateLimiter`: fixed windows, anchored to the clock or to the first request.
use webbpulse_python.Base.{
  ℕ, ◌+◌, ◌-◌, ◌/◌, true, false, String, Option, none, some, List, [], ◌∷◌, ◌==◌, leb,
  if◌then◌else◌, joined,
}
use webbpulse_python.Runtime.{Runtime}
use webbpulse_python.RateLimit.Table.{
  Table, Item, Reply, updated, condition_failed, fault, Clause, add, set_absent, always,
  absent_or_above, or_value,
}
use webbpulse_python.RateLimit.Decision.{RateLimitDecision, floor_to, ceil_until, tick}

pub data Anchor : Type 0 where
  clock first_request : Anchor

pub record RateLimiter : Type 0 where
  pub namespace : String
  pub anchor : Anchor
  pub count_attribute : String

abbrev pub ttl_attribute : String
ttl_attribute = "expires_at"

abbrev pub ttl_grace_seconds : ℕ
ttl_grace_seconds = 60

-- `RateLimiter._key`
unfoldable pub key : Runtime → RateLimiter → String → Option ℕ → String
key rt l identity none = joined (l.namespace ∷ "#" ∷ identity ∷ [])
key rt l identity (some window_start) =
    joined (l.namespace ∷ "#" ∷ identity ∷ "#" ∷ rt.decimal window_start ∷ [])

module _ (l : RateLimiter) (limit window_seconds : ℕ) where
  unfoldable pub failed_open : ℕ → RateLimitDecision
  failed_open reset_after = record {
    allowed = true;
    limit = limit;
    remaining = limit;
    reset_after = reset_after;
    window_seconds = window_seconds;
    failed_open = true;
    limit_name = l.namespace;
  }

  unfoldable pub counted : ℕ → ℕ → RateLimitDecision
  counted count reset_after = record {
    allowed = leb count limit;
    limit = limit;
    remaining = limit - count;
    reset_after = reset_after;
    window_seconds = window_seconds;
    failed_open = false;
    limit_name = l.namespace;
  }

  abbrev pub count_clauses : ℕ → List Clause
  count_clauses expires_at = add l.count_attribute 1 ∷ set_absent ttl_attribute expires_at ∷ []

  unfoldable pub clock_decision : ℕ → Reply → RateLimitDecision
  unfolding failed_open counted
  clock_decision reset_after (updated attributes) =
      counted (or_value (attributes l.count_attribute) 1) reset_after
  clock_decision reset_after condition_failed = failed_open reset_after
  clock_decision reset_after fault = failed_open reset_after

  module _ (rt : Runtime) (t : Table) where
    open t use {State, update, put, delete}

    unfoldable pub check_clock : String → ℕ → State → RateLimitDecision × State
    check_clock identity now s =
        let window_start = floor_to window_seconds now in
        let window_end = window_start + window_seconds in
        let (reply, s') =
          update (key rt l identity (some window_start))
            (count_clauses (window_end + ttl_grace_seconds)) always s in
        (clock_decision (ceil_until window_end now) reply, s')

    -- The row that opens a window at its first request.
    unfoldable pub opened : ℕ → Item
    opened expires_at a =
        if a == ttl_attribute
        then some expires_at
        else if a == l.count_attribute
        then some 1
        else none

    unfoldable pub opened_decision : ℕ → ℕ → Reply × State → RateLimitDecision × State
    unfolding failed_open counted
    opened_decision expires_at current (updated _, s) = (counted 1 (expires_at - current), s)
    opened_decision expires_at current (condition_failed, s) = (failed_open window_seconds, s)
    opened_decision expires_at current (fault, s) = (failed_open window_seconds, s)

    unfoldable pub first_request_decision : String → ℕ → Reply × State → RateLimitDecision × State
    unfolding opened opened_decision
    first_request_decision identity current (updated attributes, s) =
        let expires_at = current + window_seconds in
        (
          counted (or_value (attributes l.count_attribute) 1)
              (or_value (attributes ttl_attribute) expires_at - current),
          s,
        )
    first_request_decision identity current (condition_failed, s) =
        let expires_at = current + window_seconds in
        opened_decision expires_at current (put (key rt l identity none) (opened expires_at) s)
    first_request_decision identity current (fault, s) = (failed_open window_seconds, s)

    unfoldable pub check_first_request : String → ℕ → State → RateLimitDecision × State
    unfolding first_request_decision
    check_first_request identity now s =
        let current = now / tick in
        first_request_decision identity current (
          update (key rt l identity none) (count_clauses (current + window_seconds))
            (absent_or_above ttl_attribute current) s)

    abbrev pub check_by : Anchor → String → ℕ → State → RateLimitDecision × State
    check_by clock identity now s = check_clock identity now s
    check_by first_request identity now s = check_first_request identity now s

    unfoldable pub check : String → ℕ → State → RateLimitDecision × State
    unfolding check_clock check_first_request
    check identity now s = check_by l.anchor identity now s

-- `clear`; `window_seconds` is `none` where the argument is left out.
module _ (rt : Runtime) (l : RateLimiter) (t : Table) where
  open t use {State, delete}

  abbrev pub clear_by : Anchor → Option ℕ → String → ℕ → State → State
  clear_by clock none identity now s = s
  clear_by clock (some window_seconds) identity now s =
      (delete (key rt l identity (some (floor_to window_seconds now))) s).1
  clear_by first_request window_seconds identity now s = (delete (key rt l identity none) s).1

  unfoldable pub clear : Option ℕ → String → ℕ → State → State
  clear window_seconds identity now s = clear_by l.anchor window_seconds identity now s
