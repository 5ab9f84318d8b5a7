-- ===== src/RateLimit/Leases.antt =====
-- `TieredRateLimiter`: keyed minute and day counters in one item, and leases held in memory.
pub mod Claims
pub mod Grants
use webbpulse_python.Base.{
  ℕ, zero, suc, ◌+◌, ◌-◌, ◌*◌, ◌/◌, ◌≤◌, min, max, Bool, true, false, not, ◌&&◌, ◌||◌, String,
  Option, none, some, List, [], ◌∷◌, ◌++◌, ◌==◌, leb, ltb, nat_eq, if◌then◌else◌, joined, length,
}
use webbpulse_python.Base.Assoc.{Assoc, lookup, insert, remove}
use webbpulse_python.Runtime.{Runtime}
use webbpulse_python.RateLimit.Table.{
  Table, Item, Reply, updated, condition_failed, fault, Clause, add, set, set_absent, Condition,
  at_least, absent_or_below, or_value,
}
use webbpulse_python.RateLimit.Decision.{RateLimitDecision, floor_to, ceil_until, tick}
use webbpulse_python.RateLimit.Tiers.{Quota, TieredLimits}
use webbpulse_python.RateLimit.Fixed.{ttl_attribute, ttl_grace_seconds}

abbrev pub minute_seconds : ℕ
minute_seconds = 60

abbrev pub day_seconds : ℕ
day_seconds = 86400

-- `_LeaseState`; `blocked_until` is a whole second.
pub record LeaseState : Type 0 where
  pub minute : ℕ
  pub written_minute : Option ℕ
  pub tokens : ℕ
  pub served : ℕ
  pub previous_served : ℕ
  pub minute_remaining : ℕ
  pub day_remaining : Option ℕ
  pub blocked_until : ℕ
  pub blocked_limit : ℕ
  pub blocked_window : ℕ

abbrev pub new_state : ℕ → LeaseState
new_state minute = record {
  minute = minute;
  written_minute = none;
  tokens = 0;
  served = 0;
  previous_served = 0;
  minute_remaining = 0;
  day_remaining = none;
  blocked_until = 0;
  blocked_limit = 0;
  blocked_window = minute_seconds;
}

-- The cache is ordered, least recently used first. Its keys are pairs of a partition key and a
-- counter, written as one text with a separator that no counter holds.
abbrev pub Cache : Type 0
Cache = Assoc LeaseState

-- Rolling a state forward to a minute.
unfoldable pub rolled : ℕ → LeaseState → LeaseState
rolled minute st = if nat_eq st.minute minute then st else record st {
  previous_served = (if nat_eq (st.minute + minute_seconds) minute then st.served else 0);
  served = 0;
  tokens = 0;
  minute = minute;
}

abbrev moved : String → ℕ → Option LeaseState → Cache → Option LeaseState × Cache
moved k minute none c = (none, c)
moved k minute (some st) c = (some (rolled minute st), remove k c ++ (k, rolled minute st) ∷ [])

-- `_touch`: the state, moved to the end and rolled forward.
unfoldable pub touch : String → ℕ → Cache → Option LeaseState × Cache
unfolding rolled
touch k minute c = moved k minute (lookup k c) c

-- `_store`: the loop drops the oldest entries past the size.
unfoldable pub evict : ℕ → Cache → Cache
evict size [] = []
evict size (e ∷ c) = let rest = evict size c in if ltb size (length (e ∷ c)) then rest else e ∷ c

unfoldable pub store : ℕ → String → LeaseState → Cache → Cache
unfolding evict
store size k st c = evict size (insert k st c)

abbrev within_day : Option ℕ → Option ℕ → ℕ → ℕ → ℕ
within_day (some per_day) (some day_remaining) divisor n = min n (day_remaining / divisor)
within_day _ _ divisor n = n

-- `_lease_size`
unfoldable pub lease_size : TieredLimits → Option LeaseState → Quota → ℕ
lease_size t none quota = 1
lease_size t (some st) quota =
    if leb t.max_lease 1
    then 1
    else let divisor = t.lease_divisor in
      let minute_remaining : ℕ = elim st.written_minute [
        | none ↦ quota.per_minute
        | some w ↦ if nat_eq w st.minute then st.minute_remaining else quota.per_minute
      ] in
      max 1 (
        within_day quota.per_day st.day_remaining divisor (
          min (min t.max_lease (max st.served st.previous_served / divisor))
            (minute_remaining / divisor)))

abbrev pub minute_count : String → String
minute_count counter = joined (counter ∷ "_m" ∷ [])

abbrev pub stored_minute : String → String
stored_minute counter = joined (counter ∷ "_w" ∷ [])

abbrev pub day_count : String → String
day_count counter = joined (counter ∷ "_d" ∷ [])

-- The two writes of `_claim`: one counts into the stored minute, the other opens a new one.
unfoldable pub count_path : (counter : String) (lease minute expires : ℕ) → List Clause × Condition
count_path counter lease minute expires = (
  add (minute_count counter) lease
      ∷ add (day_count counter) lease
      ∷ set_absent ttl_attribute (expires + ttl_grace_seconds)
      ∷ [],
  at_least (stored_minute counter) minute,
)

unfoldable pub rollover_path :
    (counter : String) (lease minute expires : ℕ) → List Clause × Condition
rollover_path counter lease minute expires = (
  set (minute_count counter) lease
      ∷ set (stored_minute counter) minute
      ∷ set_absent ttl_attribute (expires + ttl_grace_seconds)
      ∷ add (day_count counter) lease
      ∷ [],
  absent_or_below (stored_minute counter) minute,
)

-- `self.update(...)` raised an error, or the loop ran out of attempts: `none`.
module _ (t : Table) where
  open t use {State, update}

  -- A failed condition goes on to the next attempt; any other error leaves the loop.
  unfoldable pub next_attempt : (State → Option Item × State) → Reply × State → Option Item × State
  next_attempt retry (updated attributes, s) = (some attributes, s)
  next_attempt retry (condition_failed, s) = retry s
  next_attempt retry (fault, s) = (none, s)

  -- The attempts take the two writes in turn.
  unfoldable pub attempt :
      (attempts : ℕ) (pk : String) (first second : List Clause × Condition)
      → State
      → Option Item × State
  unfolding next_attempt
  attempt zero pk first second s = (none, s)
  attempt (suc n) pk first second s =
      next_attempt (attempt n pk second first) (update pk first.0 first.1 s)

  unfoldable pub claim :
      (pk counter : String) (lease minute expires : ℕ) (same_minute : Bool)
      → State
      → Option Item × State
  unfolding attempt
  claim pk counter lease minute expires same_minute s =
      let counting = count_path counter lease minute expires in
      let opening = rollover_path counter lease minute expires in
      if same_minute then attempt 3 pk counting opening s else attempt 3 pk opening counting s
