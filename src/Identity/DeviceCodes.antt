-- ===== src/Identity/DeviceCodes.antt =====
-- The `device-codes` table: `DeviceCodeRecord` and `InMemoryDeviceCodeStore` of
-- src/webbpulse/identity/device_grant_storage.py. `wall` is the clock's reading, in seconds, where
-- the source takes no moment.
use text.Mathlib.Text.{starts_with}
use webbpulse_python.Base.{
  ℕ, ◌+◌, ◌/◌, Bool, true, false, not, ◌&&◌, ◌||◌, String, Option, none, some, List, [], ◌∷◌, ◌==◌,
  leb, ltb, if◌then◌else◌, joined,
}
use webbpulse_python.Base.Assoc.{Assoc, lookup, insert, remove, values, remove_where}
use webbpulse_python.Runtime.{Runtime}

pub data DeviceCodeStatus : Type 0 where
  pending approved denied : DeviceCodeStatus

abbrev pub is_pending : DeviceCodeStatus → Bool
is_pending pending = true
is_pending _ = false

abbrev pub is_approved : DeviceCodeStatus → Bool
is_approved approved = true
is_approved _ = false

pub record DeviceCodeRecord : Type 0 where
  pub device_code_hash : String
  pub user_code_hash : String
  pub client_id : String
  pub scopes : List String
  pub created_at : String
  pub expires_at : ℕ
  pub interval : ℕ
  pub status : DeviceCodeStatus
  pub user_id : String
  pub auth_time : ℕ
  pub last_polled_at : ℕ

pub record DeviceCodes : Type 0 where
  pub items : Assoc DeviceCodeRecord
  pub reservations : Assoc ℕ
  pub failures : Assoc ℕ

-- `is_expired` of a deadline in seconds
abbrev pub past : ℕ → ℕ → Bool
past expires_at wall = leb expires_at wall

abbrev pub holds_code : Option ℕ → ℕ → Bool
holds_code none wall = false
holds_code (some held) wall = not (past held wall)

abbrev pub stored : DeviceCodeRecord → DeviceCodes → Option DeviceCodeRecord → Bool × DeviceCodes
stored r s (some existing) = (false, s)
stored r s none = (
  true,
  record s {
    items = insert r.device_code_hash r s.items;
    reservations = insert r.user_code_hash r.expires_at s.reservations;
  },
)

unfoldable pub put : DeviceCodeRecord → ℕ → DeviceCodes → Bool × DeviceCodes
put r wall s =
    if holds_code (lookup r.user_code_hash s.reservations) wall
    then (false, s)
    else stored r s (lookup r.device_code_hash s.items)

abbrev pub live_record : Option DeviceCodeRecord → Bool → ℕ → Option DeviceCodeRecord
live_record none include_expired wall = none
live_record (some r) include_expired wall =
    if past r.expires_at wall && not include_expired then none else some r

unfoldable pub get : String → Bool → ℕ → DeviceCodes → Option DeviceCodeRecord
get device_code_hash include_expired wall s =
    live_record (lookup device_code_hash s.items) include_expired wall

abbrev pub first_live : String → ℕ → List DeviceCodeRecord → Option DeviceCodeRecord
first_live user_code_hash wall [] = none
first_live user_code_hash wall (r ∷ rs) =
    let rest = first_live user_code_hash wall rs in
    if r.user_code_hash == user_code_hash && not (past r.expires_at wall) then some r else rest

unfoldable pub find_by_user_code : String → ℕ → DeviceCodes → Option DeviceCodeRecord
find_by_user_code user_code_hash wall s = first_live user_code_hash wall (values s.items)

-- The row once it is decided.
abbrev pub decided :
    DeviceCodeStatus
    → (user_id : String) (scopes : List String) (auth_time : ℕ) → DeviceCodeRecord
    → DeviceCodeRecord
decided status user_id scopes auth_time r = record r {
  status = status;
  user_id = user_id;
  scopes = scopes;
  auth_time = auth_time;
}

abbrev pub decide_row :
    (device_code_hash : String)
    → (DeviceCodeRecord → DeviceCodeRecord)
    → Option DeviceCodeRecord
    → DeviceCodes
    → Bool × DeviceCodes
decide_row device_code_hash change none s = (false, s)
decide_row device_code_hash change (some r) s =
    if is_pending r.status
    then (true, record s { items = insert device_code_hash (change r) s.items })
    else (false, s)

unfoldable pub decide :
    (device_code_hash : String)
    → DeviceCodeStatus
    → (user_id : String) (scopes : List String) (auth_time wall : ℕ) → DeviceCodes
    → Bool × DeviceCodes
unfolding get
decide device_code_hash status user_id scopes auth_time wall s =
    decide_row device_code_hash (decided status user_id scopes auth_time)
      (get device_code_hash false wall s) s

abbrev pub poll_row :
    (device_code_hash : String) (now interval : ℕ)
    → Option DeviceCodeRecord
    → DeviceCodes
    → Bool × DeviceCodes
poll_row device_code_hash now interval none s = (true, s)
poll_row device_code_hash now interval (some r) s =
    if ltb 0 r.last_polled_at && ltb now (r.last_polled_at + interval) then (false, s) else (
      true,
      record s { items = insert device_code_hash (record r { last_polled_at = now }) s.items },
    )

unfoldable pub record_poll :
    (device_code_hash : String) (now interval : ℕ) → DeviceCodes → Bool × DeviceCodes
record_poll device_code_hash now interval s =
    poll_row device_code_hash now interval (lookup device_code_hash s.items) s

abbrev pub slow_row :
    (device_code_hash : String) (interval : ℕ) → Option DeviceCodeRecord → DeviceCodes → DeviceCodes
slow_row device_code_hash interval none s = s
slow_row device_code_hash interval (some r) s = record s {
  items = insert device_code_hash (record r { interval = interval }) s.items;
}

unfoldable pub slow_down : (device_code_hash : String) (interval : ℕ) → DeviceCodes → DeviceCodes
slow_down device_code_hash interval s =
    slow_row device_code_hash interval (lookup device_code_hash s.items) s

abbrev pub consume_row :
    (device_code_hash : String) (now : ℕ)
    → Option DeviceCodeRecord
    → DeviceCodes
    → Option DeviceCodeRecord × DeviceCodes
consume_row device_code_hash now none s = (none, s)
consume_row device_code_hash now (some r) s =
    if is_pending r.status || leb r.expires_at now
    then (none, s)
    else (some r, record s { items = remove device_code_hash s.items })

unfoldable pub consume :
    (device_code_hash : String) (now : ℕ) → DeviceCodes → Option DeviceCodeRecord × DeviceCodes
consume device_code_hash now s =
    consume_row device_code_hash now (lookup device_code_hash s.items) s

abbrev pub count_of : Option ℕ → ℕ
count_of none = 0
count_of (some n) = n

module _ (rt : Runtime) where
  -- `_failure_key`
  abbrev pub failure_key : (user_id : String) (now window : ℕ) → String
  failure_key user_id now window = joined ("fail#" ∷ user_id ∷ "#" ∷ rt.decimal (now / window) ∷ [])

  unfoldable pub failed_lookups : (user_id : String) (now window : ℕ) → DeviceCodes → ℕ
  failed_lookups user_id now window s =
      count_of (lookup (failure_key user_id now window) s.failures)

  unfoldable pub record_failed_lookup :
      (user_id : String) (now window : ℕ) → DeviceCodes → ℕ × DeviceCodes
  record_failed_lookup user_id now window s =
      let n = count_of (lookup (failure_key user_id now window) s.failures) + 1 in
      (n, record s { failures = insert (failure_key user_id now window) n s.failures })

abbrev without_prefix : String → Assoc ℕ → Assoc ℕ
without_prefix prefix [] = []
without_prefix prefix ((k, n) ∷ rest) =
    let kept = without_prefix prefix rest in if starts_with k prefix then kept else (k, n) ∷ kept

unfoldable pub delete_all_for_user : String → DeviceCodes → ℕ × DeviceCodes
delete_all_for_user user_id s =
    let (n, items) = remove_where (λ r. r.user_id == user_id) s.items in
    (
      n,
      record s {
        items = items;
        failures = without_prefix (joined ("fail#" ∷ user_id ∷ "#" ∷ [])) s.failures;
      },
    )
