-- ===== src/Identity/DeviceGrant/Codes.antt =====
-- Rules for a property of every row of the codes table: starting, deciding and purging keep it.
use mathlib.Core.Path.{subst}
use webbpulse_python.Base.{
  all_in, distinct_after, ℕ, zero, suc, Bool, true, false, not, ◌&&◌, ◌||◌, String, Option, none,
  some, List, [], ◌∷◌, ◌≡◌, ◌==◌, arith, refl, sym, if◌then◌else◌, if_rule, Result, is_some, All,
  nat_eq, length,
}
use webbpulse_python.Base.Assoc.{lookup, values}
use webbpulse_python.Base.Each.{Each, Each-lookup, Each-insert}
use webbpulse_python.Runtime.{Runtime}
use webbpulse_python.Identity.DeviceCodes
use webbpulse_python.Identity.DeviceCodes.{
  DeviceCodes, DeviceCodeRecord, DeviceCodeStatus, is_pending, is_approved, past, approved, denied,
  record_poll, slow_down, find_by_user_code, decided, poll_row, slow_row, consume_row, decide_row,
  stored, first_live, live_record, holds_code, record_failed_lookup,
}
use webbpulse_python.Identity.DeviceGrant.Defs.{
  DeviceSettings, Hooks, Keys, DeviceApproval, narrowed, held_scopes, user_code_attempts,
  default_scopes, user_code_hash, normalize_user_code,
}
use webbpulse_python.Identity.DeviceGrant.Login.{
  start, store_codes, code_record, decide, find_pending, pending_record, approval_for, requested_or,
  note_failed_lookup, lookups_exhausted, approval_signature,
}
use webbpulse_python.Identity.DeviceGrant.Requests.{
  approve, answer_approval, decision_answer, ApproveAnswer,
}
use webbpulse_python.Identity.DeviceGrant.Scopes.{Sub, Sub-default_scopes}

pub live_record-some :
    (o : Option DeviceCodeRecord) (wall : ℕ) (r : DeviceCodeRecord)
    → live_record o false wall ≡ some r
    → o ≡ some r
live_record-some none wall r e = absurd (cc (e))
live_record-some (some x) wall r e =
    if_rule (λ o. o ≡ some r → some x ≡ some r) (past x.expires_at wall && not false) _ _
      (λ _ c. absurd (cc (c))) (λ _ c. c) e

module _ (rt : Runtime) (cfg : DeviceSettings) (h : Hooks) (keys : Keys)
    (P : DeviceCodeRecord → Type 0)
    (fresh : (device_code user_code client_id : String) (scopes : List String) (moment : ℕ)
      → Sub cfg.device_scopes_supported scopes
      → P (code_record rt cfg device_code user_code client_id scopes moment))
    (narrows : (status : DeviceCodeStatus) (user_id : String) (held : Option (List String))
        (auth_time : ℕ) (r x : DeviceCodeRecord)
      → P r
      → P x
      → P (decided status user_id (narrowed held x.scopes) auth_time r))
    (empties : (status : DeviceCodeStatus) (user_id : String) (auth_time : ℕ) (r : DeviceCodeRecord)
      → P r
      → P (decided status user_id [] auth_time r)) where
  stored-Each :
      (r : DeviceCodeRecord) (o : Option DeviceCodeRecord) (s : DeviceCodes)
      → P r
      → Each P s.items
      → Each P (stored r s o).1.items
  stored-Each r none s p each = Each-insert P r.device_code_hash r s.items each p
  stored-Each r (some x) s p each = each

  put-Each :
      (r : DeviceCodeRecord) (wall : ℕ) (s : DeviceCodes)
      → P r
      → Each P s.items
      → Each P (DeviceCodes.put r wall s).1.items
  unfolding DeviceCodes.put
  put-Each r wall s p each =
      if_rule (λ (z : Bool × DeviceCodes). Each P z.1.items)
        (holds_code (lookup r.user_code_hash s.reservations) wall) _ _ (λ _. each)
        (λ _. stored-Each r (lookup r.device_code_hash s.items) s p each)

  store_codes-Each :
      (n : ℕ) (draws : List (String × String)) (client_id : String) (scopes : List String)
      (moment wall : ℕ) (s : DeviceCodes)
      → Sub cfg.device_scopes_supported scopes
      → Each P s.items
      → Each P (store_codes rt cfg n draws client_id scopes moment wall s).1.items
  unfolding store_codes
  store_codes-Each zero draws client_id scopes moment wall s sub each = each
  store_codes-Each (suc n) [] client_id scopes moment wall s sub each = each
  store_codes-Each (suc n) ((dc, uc) ∷ draws) client_id scopes moment wall s sub each =
      let r : DeviceCodeRecord = code_record rt cfg dc uc client_id scopes moment in
      let each' : Each P (DeviceCodes.put r wall s).1.items =
        put-Each r wall s (fresh dc uc client_id scopes moment sub) each in
      if_rule (λ (z : Result _ × DeviceCodes). Each P z.1.items) (DeviceCodes.put r wall s).0 _ _
        (λ _. each')
        (λ _.
          store_codes-Each n draws client_id scopes moment wall (DeviceCodes.put r wall s).1 sub
            each')

  requested-Sub :
      (xs : List String)
      → Sub cfg.device_scopes_supported xs
      → Sub cfg.device_scopes_supported (requested_or xs (default_scopes cfg))
  requested-Sub [] sub = Sub-default_scopes cfg
  requested-Sub (x ∷ xs) sub = sub

  pub start-Each :
      (client_id : String) (requested : List String) (draws : List (String × String))
      (moment wall : ℕ) (s : DeviceCodes)
      → Each P s.items
      → Each P (start rt cfg client_id requested draws moment wall s).1.items
  unfolding start
  start-Each client_id requested draws moment wall s each =
      let keeps : Result _ × DeviceCodes → Type 0 = λ z. Each P z.1.items in
      if_rule keeps (not (is_some (lookup client_id cfg.device_clients))) _ _ (λ _. each)
        (λ _.
          if_rule keeps (not (all_in cfg.device_scopes_supported (distinct_after [] requested))) _ _
            (λ _. each)
            (λ all.
              if_rule keeps
                (nat_eq (length (requested_or (distinct_after [] requested) (default_scopes cfg)))
                  0)
                _ _ (λ _. each)
                (λ _.
                  store_codes-Each user_code_attempts draws client_id _ moment wall s
                    (requested-Sub (distinct_after [] requested) (ground (arith, all))) each)))

  decide_row-Each :
      (k : String) (change : DeviceCodeRecord → DeviceCodeRecord) (o : Option DeviceCodeRecord)
      (s : DeviceCodes)
      → ((r : DeviceCodeRecord) → o ≡ some r → P (change r))
      → Each P s.items
      → Each P (decide_row k change o s).1.items
  decide_row-Each k change none s p each = each
  decide_row-Each k change (some r) s p each =
      if_rule (λ (z : Bool × DeviceCodes). Each P z.1.items) (is_pending r.status) _ _
        (λ _. Each-insert P k (change r) s.items each (p r refl)) (λ _. each)

  decide-Each :
      (k : String) (status : DeviceCodeStatus) (user_id : String) (scopes : List String)
      (auth_time wall : ℕ) (s : DeviceCodes)
      → ((r : DeviceCodeRecord) → P r → P (decided status user_id scopes auth_time r))
      → Each P s.items
      → Each P (DeviceCodes.decide k status user_id scopes auth_time wall s).1.items
  unfolding DeviceCodes.decide DeviceCodes.get
  decide-Each k status user_id scopes auth_time wall s p each =
      decide_row-Each k (decided status user_id scopes auth_time)
        (live_record (lookup k s.items) false wall) s
        (λ r e. p r (Each-lookup P k s.items r each (live_record-some (lookup k s.items) wall r e)))
        each

  first_live-All :
      (k : String) (wall : ℕ) (rs : List DeviceCodeRecord) (r : DeviceCodeRecord)
      → All P rs
      → first_live k wall rs ≡ some r
      → P r
  first_live-All k wall [] r all e = absurd (cc (e))
  first_live-All k wall (x ∷ xs) r all e =
      if_rule (λ o. o ≡ some r → P r) (x.user_code_hash == k && not (past x.expires_at wall)) _ _
        (λ _ c. subst P (cc (c)) all.0) (λ _ c. first_live-All k wall xs r all.1 c) e

  -- The scopes that an approval offers are narrowed from a row of the table.
  abbrev Offers : DeviceApproval → Type 0
  Offers a =
      (held : Option (List String)) × (x : DeviceCodeRecord) × P x
      × (a.scopes ≡ narrowed held x.scopes)

  approval_for-Offers :
      (normalized : String) (r : DeviceCodeRecord) (o : Option h.User) (a : DeviceApproval)
      → P r
      → approval_for rt cfg h keys normalized r o ≡ some a
      → Offers a
  approval_for-Offers normalized r none a p e = absurd (cc (e))
  approval_for-Offers normalized r (some user) a p e =
      (held_scopes rt cfg h keys user, r, p, cc (e))

  pending_record-Offers :
      (normalized user_id : String) (wall : ℕ) (o : Option DeviceCodeRecord) (a : DeviceApproval)
      → ((r : DeviceCodeRecord) → o ≡ some r → P r)
      → pending_record rt cfg h keys normalized user_id wall o ≡ some a
      → Offers a
  pending_record-Offers normalized user_id wall none a p e = absurd (cc (e))
  pending_record-Offers normalized user_id wall (some r) a p e =
      if_rule (λ o. o ≡ some a → Offers a) (not (is_pending r.status) || past r.expires_at wall) _ _
        (λ _ c. absurd (cc (c)))
        (λ _ c. approval_for-Offers normalized r (h.load_user_by_id user_id) a (p r refl) c) e

  find_pending-Offers :
      (user_code user_id : String) (wall : ℕ) (s : DeviceCodes) (a : DeviceApproval)
      → Each P s.items
      → find_pending rt cfg h keys user_code user_id wall s ≡ some a
      → Offers a
  unfolding find_pending find_by_user_code
  find_pending-Offers user_code user_id wall s a each e =
      let hash : String = user_code_hash rt (normalize_user_code rt user_code) in
      if_rule (λ o. o ≡ some a → Offers a) (normalize_user_code rt user_code == "") _ _
        (λ _ c. absurd (cc (c)))
        (λ _ c.
          pending_record-Offers (normalize_user_code rt user_code) user_id wall
            (first_live hash wall (values s.items)) a
            (λ r found. first_live-All hash wall (values s.items) r each found) c)
        e

  decision_answer-Each :
      (allow : Bool) (x : Bool × DeviceCodes)
      → Each P x.1.items
      → Each P (decision_answer rt cfg h keys allow x).1.items
  decision_answer-Each allow (false, s) each = each
  decision_answer-Each allow (true, s) each = each

  chosen :
      (allow : Bool) (a : DeviceApproval) (status : DeviceCodeStatus) (user_id : String)
      (auth_time : ℕ) (r : DeviceCodeRecord)
      → Offers a
      → P r
      → P (decided status user_id (if allow then a.scopes else []) auth_time r)
  chosen false a status user_id auth_time r offers p = empties status user_id auth_time r p
  chosen true a status user_id auth_time r (held, x, px, e) p =
      subst (λ scopes. P (decided status user_id scopes auth_time r)) (sym e)
        (narrows status user_id held auth_time r x p px)

  service-decide-Each :
      (a : DeviceApproval) (user_id : String) (allow : Bool) (auth_time wall : ℕ) (s : DeviceCodes)
      → Offers a
      → Each P s.items
      → Each P (decide rt cfg h keys a user_id allow auth_time wall s).1.items
  unfolding decide
  service-decide-Each a user_id allow auth_time wall s offers each =
      if_rule (λ (z : Bool × DeviceCodes). Each P z.1.items) (allow && nat_eq (length a.scopes) 0) _
        _ (λ _. each)
        (λ _.
          decide-Each a.row.device_code_hash (if allow then approved else denied) user_id _
            auth_time wall s (λ r p. chosen allow a _ user_id auth_time r offers p) each)

  answer_approval-Each :
      (user_id signature : String) (allow : Bool) (auth_time moment wall : ℕ)
      (o : Option DeviceApproval) (s : DeviceCodes)
      → ((a : DeviceApproval) → o ≡ some a → Offers a)
      → Each P s.items
      → Each P
          (answer_approval rt cfg h keys user_id signature allow auth_time moment wall o s).1.items
  unfolding note_failed_lookup record_failed_lookup
  answer_approval-Each user_id signature allow auth_time moment wall none s offers each = each
  answer_approval-Each user_id signature allow auth_time moment wall (some a) s offers each =
      if_rule (λ (z : ApproveAnswer × DeviceCodes). Each P z.1.items)
        (not (signature == approval_signature rt cfg h keys a user_id)) _ _ (λ _. each)
        (λ _.
          decision_answer-Each allow (decide rt cfg h keys a user_id allow auth_time wall s)
            (service-decide-Each a user_id allow auth_time wall s (offers a refl) each))

  pub approve-Each :
      (user_code user_id signature : String) (allow : Bool) (auth_time moment wall : ℕ)
      (s : DeviceCodes)
      → Each P s.items
      → Each P
          (approve rt cfg h keys user_code user_id signature allow auth_time moment wall s).1.items
  unfolding approve
  approve-Each user_code user_id signature allow auth_time moment wall s each =
      if_rule (λ (z : ApproveAnswer × DeviceCodes). Each P z.1.items)
        (lookups_exhausted rt cfg user_id moment s) _ _ (λ _. each)
        (λ _.
          answer_approval-Each user_id signature allow auth_time moment wall _ s
            (λ a e. find_pending-Offers user_code user_id wall s a each e) each)
