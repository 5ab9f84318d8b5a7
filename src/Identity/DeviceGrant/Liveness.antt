-- ===== src/Identity/DeviceGrant/Liveness.antt =====
-- `device_grant_is_live` and `DeviceGrantLiveness`, its cache. The cache's clock is monotonic, in
-- any unit; its keys are pairs of a grant id and a user id.
use webbpulse_python.Base.{
  ℕ, ◌+◌, Bool, true, false, not, ◌&&◌, String, Option, none, some, List, [], ◌∷◌, ◌==◌, leb, ltb,
  if◌then◌else◌, length,
}
use webbpulse_python.Identity.Claims.{Claims}
use webbpulse_python.Identity.DeviceGrants.{DeviceGrantRecord, DeviceGrants, live, get}

abbrev pub record_is_live : (sub : String) (wall : ℕ) → Option DeviceGrantRecord → Bool
record_is_live sub wall none = false
record_is_live sub wall (some g) = g.user_id == sub && live g wall

unfoldable pub device_grant_is_live : Claims → (wall : ℕ) → DeviceGrants → Bool
device_grant_is_live c wall s =
    if not (c.grant == "device")
    then true
    else if c.sid == ""
    then false
    else record_is_live c.sub wall (get c.sid s)

-- One remembered answer: its key, the moment up to which it serves, and the answer.
pub record Remembered : Type 0 where
  pub sid : String
  pub sub : String
  pub until : ℕ
  pub answer : Bool

abbrev pub is_for : (sid sub : String) → Remembered → Bool
is_for sid sub m = m.sid == sid && m.sub == sub

unfoldable pub recall : (sid sub : String) → List Remembered → Option Remembered
recall sid sub [] = none
recall sid sub (m ∷ ms) = let rest = recall sid sub ms in if is_for sid sub m then some m else rest

unfoldable pub remember : Remembered → List Remembered → List Remembered
remember m [] = m ∷ []
remember m (x ∷ xs) = if is_for m.sid m.sub x then m ∷ xs else x ∷ remember m xs

pub record Liveness : Type 0 where
  pub ttl : ℕ
  pub max_entries : ℕ

abbrev pub stored_answer : Liveness → Remembered → List Remembered → List Remembered
stored_answer l m cache = remember m (if leb l.max_entries (length cache) then [] else cache)

abbrev pub asked_again :
    Liveness → Claims → (moment wall : ℕ) → DeviceGrants → List Remembered → Bool × List Remembered
asked_again l c moment wall s cache =
    let answer = device_grant_is_live c wall s in
    (
      answer,
      (if ltb 0 l.ttl
          then stored_answer l
              (record { sid = c.sid; sub = c.sub; until = moment + l.ttl; answer = answer }) cache
          else cache),
    )

abbrev pub answered :
    Liveness
    → Claims
    → (moment wall : ℕ) → DeviceGrants
    → List Remembered
    → Option Remembered
    → Bool × List Remembered
answered l c moment wall s cache none = asked_again l c moment wall s cache
answered l c moment wall s cache (some hit) =
    if ltb moment hit.until then (hit.answer, cache) else asked_again l c moment wall s cache

-- `__call__`
unfoldable pub check_liveness :
    Liveness → Claims → (moment wall : ℕ) → DeviceGrants → List Remembered → Bool × List Remembered
unfolding recall
check_liveness l c moment wall s cache =
    if not (c.grant == "device")
    then (true, cache)
    else answered l c moment wall s cache (recall c.sid c.sub cache)
