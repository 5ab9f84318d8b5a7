-- ===== src/Identity/Lockout.antt =====
-- src/webbpulse/identity/lockout.py, and the two functions of src/webbpulse/identity/flows.py that
-- ask it. A moment and a span are in microseconds.
pub mod Streak
pub mod Recent
use webbpulse_python.Base.{
  ℕ, zero, suc, ◌+◌, ◌-◌, ◌*◌, ◌/◌, ◌^◌, min, Bool, true, false, ◌||◌, ◌&&◌, String, Option, none,
  some, List, [], ◌∷◌, ◌++◌, map, ◌==◌, leb, ltb, if◌then◌else◌, joined, text_lt, is_some,
}
use webbpulse_python.Base.Assoc.{Assoc, lookup, insert, map_option}
use webbpulse_python.Runtime.{Runtime, microseconds, in_utc}

pub data AttemptOutcome : Type 0 where
  success failure locked : AttemptOutcome

pub record LoginAttempt : Type 0 where
  pub identity_key : String
  pub attempted_at : String
  pub outcome : AttemptOutcome
  pub user_id : String
  pub ip : String
  pub user_agent : String
  pub expires_at : ℕ

pub record LockoutState : Type 0 where
  pub failures : ℕ
  pub retry_at : Option ℕ

-- The property `locked` of a `LockoutState`.
abbrev pub is_locked : LockoutState → Bool
is_locked st = is_some st.retry_at

-- `int(delta.total_seconds() + 0.999)`, at least zero
abbrev seconds_until : Option ℕ → ℕ → ℕ
seconds_until none now = 0
seconds_until (some retry_at) now = (retry_at + 999000 - now) / microseconds

unfoldable pub retry_after_seconds : LockoutState → ℕ → ℕ
retry_after_seconds st now = seconds_until st.retry_at now

-- The keyword arguments of `lockout_state` but for `now`.
pub record Policy : Type 0 where
  pub threshold : ℕ
  pub base_delay : ℕ
  pub max_delay : ℕ
  pub lookback : ℕ

-- Their defaults.
abbrev pub default_policy : Policy
default_policy = record {
  threshold = 5;
  base_delay = 1000000;
  max_delay = 900000000;
  lookback = 86400000000;
}

-- `_outcome`
unfoldable pub outcome_of : String → AttemptOutcome
outcome_of value =
    if value == "success" then success else if value == "locked" then locked else failure

module _ (rt : Runtime) where
  -- `email_key`, `ip_key`, `mfa_key`
  unfoldable pub email_key : String → String
  email_key email = joined ("email#" ∷ rt.lower (rt.strip email) ∷ [])

  unfoldable pub ip_key : String → String
  ip_key address = joined ("ip#" ∷ address ∷ [])

  unfoldable pub mfa_key : String → String
  mfa_key user_id = joined ("mfa#" ∷ user_id ∷ [])

  -- `_parse` of lockout.py
  unfoldable pub parsed : String → Option ℕ
  parsed value = map_option in_utc (rt.fromisoformat (rt.replace value "Z" "+00:00"))

  -- The newest failure of the streak: the first that the loop meets.
  abbrev pub first_seen : Option ℕ → ℕ → Option ℕ
  first_seen none moment = some moment
  first_seen (some newest) moment = some newest

  -- The loop of `lockout_state`, with its two variables.
  unfoldable pub streak : ℕ → List LoginAttempt → ℕ → Option ℕ → ℕ × Option ℕ
  streak horizon [] failures newest = (failures, newest)
  streak horizon (a ∷ rest) failures newest = elim (parsed a.attempted_at) [
    | none ↦ (failures, newest)
    | some at ↦ if ltb at horizon then (failures, newest) else elim a.outcome [
      | success ↦ (failures, newest)
      | locked ↦ streak horizon rest failures newest
      | failure ↦ streak horizon rest (failures + 1) (first_seen newest at)
    ]
  ]

  module _ (policy : Policy) where
    abbrev pub delay_of : ℕ → ℕ
    delay_of failures =
        min (policy.base_delay * (2 ^ min (failures - policy.threshold) 32)) policy.max_delay

    -- The part of `lockout_state` behind its loop.
    unfoldable pub delayed : ℕ → ℕ × Option ℕ → LockoutState
    delayed moment (failures, none) = record { failures = failures; retry_at = none }
    delayed moment (failures, some newest) =
        if ltb failures policy.threshold
        then record { failures = failures; retry_at = none }
        else if leb (newest + delay_of failures) moment
        then record { failures = failures; retry_at = none }
        else record { failures = failures; retry_at = some (newest + delay_of failures) }

    unfoldable pub lockout_state : List LoginAttempt → ℕ → LockoutState
    unfolding streak delayed
    lockout_state attempts moment =
        delayed moment (streak (moment - policy.lookback) attempts 0 none)

  -- `new_attempt`, at a reading of the clock; a row lives for 30 days.
  unfoldable pub new_attempt :
      (identity_key : String) → AttemptOutcome → (user_id ip user_agent : String) → ℕ → LoginAttempt
  new_attempt identity_key outcome user_id ip user_agent wall = record {
    identity_key = identity_key;
    attempted_at = rt.replace (rt.isoformat_ms wall) "+00:00" "Z";
    outcome = outcome;
    user_id = user_id;
    ip = ip;
    user_agent = user_agent;
    expires_at = wall / microseconds + 2592000;
  }

-- `InMemoryLoginAttemptStore`: the rows of a key, each with the number of its insertion.
abbrev pub Row : Type 0
Row = ℕ × LoginAttempt

pub record LoginAttempts : Type 0 where
  pub items : Assoc (List Row)
  pub sequence : ℕ

abbrev pub rows_of : Option (List Row) → List Row
rows_of none = []
rows_of (some rows) = rows

unfoldable pub record_attempt : LoginAttempt → LoginAttempts → LoginAttempts
record_attempt a s = record {
  items =
      insert a.identity_key (rows_of (lookup a.identity_key s.items) ++ (s.sequence + 1, a) ∷ [])
        s.items;
  sequence = s.sequence + 1;
}

-- The order of `sorted(..., key=lambda row: (row[1].attempted_at, row[0]), reverse=True)`.
abbrev pub newer : Row → Row → Bool
newer (n, a) (m, b) =
    text_lt b.attempted_at a.attempted_at || (a.attempted_at == b.attempted_at && ltb m n)

abbrev pub insert_row : Row → List Row → List Row
insert_row r [] = r ∷ []
insert_row r (x ∷ xs) = if newer x r then x ∷ insert_row r xs else r ∷ x ∷ xs

abbrev pub newest_first : List Row → List Row
newest_first [] = []
newest_first (r ∷ rs) = insert_row r (newest_first rs)

-- `ordered[:limit]`
abbrev pub take {ℓ} : {A : Type ℓ} → ℕ → List A → List A
take zero xs = []
take (suc n) [] = []
take (suc n) (x ∷ xs) = x ∷ take n xs

unfoldable pub recent : ℕ → String → LoginAttempts → List LoginAttempt
recent limit identity_key s =
    map (λ (r : Row). r.1) (take limit (newest_first (rows_of (lookup identity_key s.items))))

-- The `limit` that `recent` has where the argument is left out, as everywhere.
abbrev pub recent_limit : ℕ
recent_limit = 50

-- `_lockout_state`, `_record` and `_refuse_when_locked` of flows.py, with an attempt store. The two
-- rows of one attempt are stamped one after the other. `none` is no refusal.
module _ (rt : Runtime) where
  unfoldable pub flow_lockout_state : String → ℕ → LoginAttempts → LockoutState
  flow_lockout_state identity now s =
      lockout_state rt default_policy (recent recent_limit identity s) now

  unfoldable pub record_outcome :
      (identity : String)
      → AttemptOutcome
      → (user_id ip device_class : String) (wall wall' : ℕ) → LoginAttempts
      → LoginAttempts
  record_outcome identity outcome user_id ip device_class wall wall' s =
      let s₁ =
        if identity == ""
        then s
        else record_attempt (new_attempt rt identity outcome user_id ip device_class wall) s in
      if ip == ""
      then s₁
      else record_attempt (new_attempt rt (ip_key rt ip) outcome user_id ip device_class wall') s₁

  unfoldable pub refuse_when_locked :
      (identity ip device_class : String) (now wall wall' : ℕ)
      → LoginAttempts
      → Option ℕ × LoginAttempts
  unfolding flow_lockout_state record_outcome
  refuse_when_locked identity ip device_class now wall wall' s =
      let st = flow_lockout_state identity now s in
      if is_locked st
      then (
        some (retry_after_seconds st now),
        record_outcome identity locked "" ip device_class wall wall' s,
      )
      else (none, s)
