-- ===== src/Runtime.antt =====
-- What the program takes from Python's standard library and does not implement: text case and
-- replacement, URL queries, ISO timestamps, and the hash of a token. A moment is a count of microseconds since
-- the epoch, and so is a span of time.
use webbpulse_python.Base.{
  ℕ, ◌*◌, ◌/◌, ◌≡◌, false, String, Option, none, some, List, ◌==◌, if◌then◌else◌,
}
use webbpulse_python.Base.Assoc.{map_option}

-- What `datetime.fromisoformat` returns: an instant, with or without an offset. Without one it is
-- the instant that the same fields name in UTC.
pub data Parsed : Type 0 where
  aware naive : ℕ → Parsed

pub record Runtime : Type 0 where
  -- `str.lower`
  pub lower : String → String
  -- `str.upper`
  pub upper : String → String
  -- `str.strip`
  pub strip : String → String
  -- `str.split`
  pub split : String → List String
  -- `str(n)` of a number
  pub decimal : ℕ → String
  -- `text.replace(old, new)`
  pub replace : String → String → String → String
  -- `urlencode({name: value}, quote_via=quote)`
  pub urlencode : String → String → String
  -- `moment.astimezone(UTC).isoformat(timespec="seconds")`
  pub isoformat : ℕ → String
  -- `moment.astimezone(UTC).isoformat(timespec="milliseconds")`
  pub isoformat_ms : ℕ → String
  -- `datetime.fromisoformat`, `none` where it raises
  pub fromisoformat : String → Option Parsed
  -- `hashlib.sha256(text.encode()).hexdigest()`
  pub sha256 : String → String

abbrev pub microseconds : ℕ
microseconds = 1000000

-- `parsed if parsed.tzinfo is not None else parsed.replace(tzinfo=UTC)`
abbrev pub in_utc : Parsed → ℕ
in_utc (aware m) = m
in_utc (naive m) = m

module _ (rt : Runtime) where
  -- `_iso` of sessions.py and `now_iso` of dynamodb.py
  unfoldable pub iso : ℕ → String
  iso moment = rt.replace (rt.isoformat moment) "+00:00" "Z"

  -- `_parse` of sessions.py
  unfoldable pub parse : String → Option ℕ
  parse value =
      if value == ""
      then none
      else map_option in_utc (rt.fromisoformat (rt.replace value "Z" "+00:00"))

  -- The documented behaviour of ISO timestamps that the program relies on: one printed to the
  -- second reads back as its second, and is not empty.
  pub record IsoLaws : Type 0 where
    pub reads_back :
        (moment : ℕ)
        → rt.fromisoformat (rt.replace (rt.replace (rt.isoformat moment) "+00:00" "Z") "Z" "+00:00")
          ≡ some (aware (moment / microseconds * microseconds))
    pub nonempty : (moment : ℕ) → rt.replace (rt.isoformat moment) "+00:00" "Z" == "" ≡ false

  pub parse-iso :
      IsoLaws → (moment : ℕ) → parse (iso moment) ≡ some (moment / microseconds * microseconds)
  unfolding parse iso
  parse-iso laws moment = rw (laws.nonempty moment, laws.reads_back moment)
