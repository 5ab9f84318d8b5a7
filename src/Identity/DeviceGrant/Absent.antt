-- ===== src/Identity/DeviceGrant/Absent.antt =====
-- A device code whose row is gone stays gone, as long as no start draws it again.
use webbpulse_python.Base.{
  all_in, distinct_after, ℕ, zero, suc, Bool, not, ◌&&◌, ◌||◌, String, Option, none, some, List, [],
  ◌∷◌, ◌≡◌, ◌==◌, eq_iff, arith, refl, ◌∙◌, leb, ltb, ◌+◌, if_rule, Result, is_some, nat_eq, length,
}
use webbpulse_python.Base.Assoc.{Assoc, lookup, insert, remove, remove_where}
use webbpulse_python.Runtime.{Runtime}
use webbpulse_python.Identity.DeviceCodes
use webbpulse_python.Identity.DeviceCodes.{
  DeviceCodes, DeviceCodeRecord, DeviceCodeStatus, is_pending, is_approved, past, approved, denied,
  record_poll, slow_down, find_by_user_code, decided, poll_row, slow_row, consume_row, decide_row,
  stored, first_live, live_record, holds_code, record_failed_lookup,
}
use webbpulse_python.Identity.DeviceGrant.Defs.{DeviceSettings, user_code_attempts, default_scopes}
use webbpulse_python.Identity.DeviceGrant.Login.{start, store_codes, code_record, requested_or}
use webbpulse_python.Identity.DeviceGrant.Requests.{DeviceRequest, starts}
use webbpulse_python.Base.{if_false, ◌≢◌}
use webbpulse_python.Base.Assoc.{lookup-insert, lookup-remove}

-- No row stands under the hash.
abbrev pub Absent : String → DeviceCodes → Type 0
Absent k s = lookup k s.items ≡ none

-- A request that does not draw a device code of the hash.
abbrev pub Draws : (rt : Runtime) → String → List (String × String) → Type 0
Draws rt k [] = Unit
Draws rt k ((device_code, user_code) ∷ draws) = (rt.sha256 device_code ≢ k) × Draws rt k draws

abbrev pub OtherCodes : Runtime → String → DeviceRequest → Type 0
OtherCodes rt k (starts client_id requested draws moment wall) = Draws rt k draws
OtherCodes rt k _ = Unit

-- A write at a key that is there keeps another absent.
insert-Absent :
    {W : Type 0} (k j : String) (v w : W) (d : Assoc W)
    → lookup j d ≡ some w
    → lookup k d ≡ none
    → lookup k (insert j v d) ≡ none
insert-Absent k j v w d found absent =
    lookup-insert j k v d ∙ if_false (j == k) _ _ (ground (arith, eq_iff j k, other)) ∙ absent
  where
    other : j ≢ k
    other same = absurd (cc (same, found, absent))

pub remove-Absent :
    {W : Type 0} (k j : String) (d : Assoc W) → lookup k d ≡ none → lookup k (remove j d) ≡ none
remove-Absent k j d absent =
    lookup-remove j k d
    ∙ if_rule (λ (o : Option _). o ≡ none) (j == k) _ _ (λ _. refl) (λ _. absent)

pub remove_where-Absent :
    {W : Type 0} (k : String) (hit : W → Bool) (d : Assoc W)
    → lookup k d ≡ none
    → lookup k (remove_where hit d).1 ≡ none
unfolding lookup remove_where
remove_where-Absent {W = W} k hit [] absent = refl
remove_where-Absent {W = W} k hit ((j, v) ∷ d) absent =
    if_rule (λ (o : Option _). o ≡ none → lookup k (remove_where hit ((j, v) ∷ d)).1 ≡ none)
      (j == k) _ _ (λ _ c. absurd (cc (c)))
      (λ other c.
        if_rule (λ (x : ℕ × Assoc W). lookup k x.1 ≡ none) (hit v) _ _
          (λ _. remove_where-Absent k hit d c)
          (λ _. if_false (j == k) _ _ other ∙ remove_where-Absent k hit d c))
      absent

module _ (k : String) where
  pub put-Absent :
      (r : DeviceCodeRecord) (wall : ℕ) (s : DeviceCodes)
      → r.device_code_hash ≢ k
      → Absent k s
      → Absent k (DeviceCodes.put r wall s).1
  unfolding DeviceCodes.put
  put-Absent r wall s other absent =
      if_rule (λ (z : Bool × DeviceCodes). Absent k z.1)
        (holds_code (lookup r.user_code_hash s.reservations) wall) _ _ (λ _. absent)
        (λ _. stored-Absent (lookup r.device_code_hash s.items))
    where
      stored-Absent : (o : Option DeviceCodeRecord) → Absent k (stored r s o).1
      stored-Absent none =
          lookup-insert r.device_code_hash k r s.items
          ∙ if_false (r.device_code_hash == k) _ _
              (ground (arith, eq_iff r.device_code_hash k, other))
          ∙ absent
      stored-Absent (some x) = absent

  pub store_codes-Absent :
      (rt : Runtime) (cfg : DeviceSettings) (n : ℕ) (draws : List (String × String)) (c : String)
      (scopes : List String) (m w : ℕ) (s : DeviceCodes)
      → Draws rt k draws
      → Absent k s
      → Absent k (store_codes rt cfg n draws c scopes m w s).1
  unfolding store_codes
  store_codes-Absent rt cfg zero draws c scopes m w s other absent = absent
  store_codes-Absent rt cfg (suc n) [] c scopes m w s other absent = absent
  store_codes-Absent rt cfg (suc n) ((dc, uc) ∷ draws) c scopes m w s other absent =
      let r : DeviceCodeRecord = code_record rt cfg dc uc c scopes m in
      let absent' : Absent k (DeviceCodes.put r w s).1 = put-Absent r w s other.0 absent in
      if_rule (λ (z : Result _ × DeviceCodes). Absent k z.1) (DeviceCodes.put r w s).0 _ _
        (λ _. absent')
        (λ _.
          store_codes-Absent rt cfg n draws c scopes m w (DeviceCodes.put r w s).1 other.1 absent')

  pub start-Absent :
      (rt : Runtime) (cfg : DeviceSettings) (c : String) (requested : List String)
      (draws : List (String × String)) (m w : ℕ) (s : DeviceCodes)
      → Draws rt k draws
      → Absent k s
      → Absent k (start rt cfg c requested draws m w s).1
  unfolding start
  start-Absent rt cfg c requested draws m w s other absent =
      let keeps : Result _ × DeviceCodes → Type 0 = λ z. Absent k z.1 in
      if_rule keeps (not (is_some (lookup c cfg.device_clients))) _ _ (λ _. absent)
        (λ _.
          if_rule keeps (not (all_in cfg.device_scopes_supported (distinct_after [] requested))) _ _
            (λ _. absent)
            (λ _.
              if_rule keeps
                (nat_eq (length (requested_or (distinct_after [] requested) (default_scopes cfg)))
                  0)
                _ _ (λ _. absent)
                (λ _. store_codes-Absent rt cfg user_code_attempts draws c _ m w s other absent)))

  pub decide_row-Absent :
      (j : String) (change : DeviceCodeRecord → DeviceCodeRecord) (o : Option DeviceCodeRecord)
      (s : DeviceCodes)
      → ((r : DeviceCodeRecord) → o ≡ some r → lookup j s.items ≡ some r)
      → Absent k s
      → Absent k (decide_row j change o s).1
  decide_row-Absent j change none s found absent = absent
  decide_row-Absent j change (some r) s found absent =
      if_rule (λ (z : Bool × DeviceCodes). Absent k z.1) (is_pending r.status) _ _
        (λ _. insert-Absent k j (change r) r s.items (found r refl) absent) (λ _. absent)

  pub poll_row-Absent :
      (j : String) (now interval : ℕ) (o : Option DeviceCodeRecord) (s : DeviceCodes)
      → lookup j s.items ≡ o
      → Absent k s
      → Absent k (poll_row j now interval o s).1
  poll_row-Absent j now interval none s e absent = absent
  poll_row-Absent j now interval (some r) s e absent =
      if_rule (λ (z : Bool × DeviceCodes). Absent k z.1)
        (ltb 0 r.last_polled_at && ltb now (r.last_polled_at + interval)) _ _ (λ _. absent)
        (λ _. insert-Absent k j _ r s.items e absent)

  pub slow_row-Absent :
      (j : String) (interval : ℕ) (o : Option DeviceCodeRecord) (s : DeviceCodes)
      → lookup j s.items ≡ o
      → Absent k s
      → Absent k (slow_row j interval o s)
  slow_row-Absent j interval none s e absent = absent
  slow_row-Absent j interval (some r) s e absent = insert-Absent k j _ r s.items e absent

  pub consume_row-Absent :
      (j : String) (now : ℕ) (o : Option DeviceCodeRecord) (s : DeviceCodes)
      → Absent k s
      → Absent k (consume_row j now o s).1
  consume_row-Absent j now none s absent = absent
  consume_row-Absent j now (some r) s absent =
      if_rule (λ (z : Option DeviceCodeRecord × DeviceCodes). Absent k z.1)
        (is_pending r.status || leb r.expires_at now) _ _ (λ _. absent)
        (λ _. remove-Absent k j s.items absent)
