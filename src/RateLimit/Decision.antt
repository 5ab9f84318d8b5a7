-- ===== src/RateLimit/Decision.antt =====
-- `RateLimitDecision`, and `rate_limit_headers` but for the text of the numbers.
use webbpulse_python.Base.{ℕ, ◌+◌, ◌-◌, ◌*◌, ◌/◌, Bool, String}

pub record RateLimitDecision : Type 0 where
  pub allowed : Bool
  pub limit : ℕ
  pub remaining : ℕ
  pub reset_after : ℕ
  pub window_seconds : ℕ
  pub failed_open : Bool
  pub limit_name : String

-- A clock reading is in microseconds since the epoch, a window in seconds.
abbrev pub tick : ℕ
tick = 1000000

-- `int(math.floor(now / window) * window)`
unfoldable pub floor_to : ℕ → ℕ → ℕ
floor_to window now = now / (window * tick) * window

-- `max(math.ceil(at - now), 0)`
unfoldable pub ceil_until : ℕ → ℕ → ℕ
ceil_until at now = (at * tick - now + (tick - 1)) / tick
