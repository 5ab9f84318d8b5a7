-- ===== src/Identity/DeviceGrant/Polls.antt =====
-- The rules of Rules.antt for the polls, which open grants, and for every request.
use mathlib.Core.Path.{subst}
use webbpulse_python.Base.{
  ℕ, Bool, not, ◌&&◌, ◌||◌, String, Option, none, some, ◌≡◌, ◌==◌, refl, leb, ltb, ◌+◌, if_rule,
  Result,
}
use webbpulse_python.Base.Assoc.{lookup}
use webbpulse_python.Base.Each.{Each, Each-lookup, Each-insert, Each-remove}
use webbpulse_python.Runtime.{Runtime}
use webbpulse_python.Identity.DeviceCodes
use webbpulse_python.Identity.DeviceCodes.{
  DeviceCodes, DeviceCodeRecord, DeviceCodeStatus, is_pending, is_approved, past, approved, denied,
  record_poll, slow_down, find_by_user_code, decided, poll_row, slow_row, consume_row, decide_row,
  stored, first_live, live_record, holds_code, record_failed_lookup,
}
use webbpulse_python.Identity.DeviceGrants
use webbpulse_python.Identity.DeviceGrants.{DeviceGrantRecord, DeviceGrants, live}
use webbpulse_python.Identity.DeviceGrant.Defs.{
  DeviceSettings, Hooks, Keys, DeviceGrantStores, TokenBody, load_permitted, token_body,
}
use webbpulse_python.Identity.DeviceGrant.Login.{
  GrantDraws, new_grant, grant_for, open_grant, collected, poll_record, poll_found, poll,
}
use webbpulse_python.Base.Rows.{Rows, Rows-insert}
use webbpulse_python.Identity.DeviceGrant.Rules.{Holds}

module _ (rt : Runtime) (cfg : DeviceSettings) (h : Hooks) (keys : Keys)
    (R : String → DeviceGrantRecord → Type 0) (P : DeviceCodeRecord → Type 0)
    (polled : (r : DeviceCodeRecord) (n : ℕ) → P r → P (record r { last_polled_at = n }))
    (slowed : (r : DeviceCodeRecord) (n : ℕ) → P r → P (record r { interval = n }))
    (B : TokenBody → Type 0) (d : GrantDraws) (moment : ℕ)
    (opens : (r : DeviceCodeRecord)
      → P r
      → R d.grant_id (new_grant rt cfg h keys r d moment)
        × ((user : h.User) (next : String)
            → B (
                token_body rt cfg h keys
                  (new_grant rt cfg h keys r d moment)
                  user
                  next
                  moment))) where
  -- The tokens that a poll issues, and the rows that it leaves in both tables.
  abbrev pub Opened : Result TokenBody × DeviceGrantStores → Type 0
  Opened x = Holds B x.0 × Rows R x.1.grants × Each P x.1.codes.items

  grant_for-Opened :
      (r : DeviceCodeRecord) (o : Option h.User) (s : DeviceGrantStores)
      → P r
      → Rows R s.grants
      → Each P s.codes.items
      → Opened (grant_for rt cfg h keys r d moment o s)
  unfolding DeviceGrants.put
  grant_for-Opened r none s p rows each = (tt, rows, each)
  grant_for-Opened r (some user) s p rows each = (
    (opens r p).1 user _,
    Rows-insert R d.grant_id (new_grant rt cfg h keys r d moment) s.grants (opens r p).0 rows,
    each,
  )

  collected-Opened :
      (o : Option DeviceCodeRecord) (codes : DeviceCodes) (grants : DeviceGrants)
      → ((r : DeviceCodeRecord) → o ≡ some r → P r)
      → Rows R grants
      → Each P codes.items
      → Opened (collected rt cfg h keys d moment (o, codes) grants)
  unfolding collected open_grant
  collected-Opened none codes grants p rows each = (tt, rows, each)
  collected-Opened (some r) codes grants p rows each =
      if_rule Opened (not (is_approved r.status) || r.user_id == "") _ _ (λ _. (tt, rows, each))
        (λ _. grant_for-Opened r (load_permitted rt cfg h keys r.user_id) _ (p r refl) rows each)

  consume_row-Each :
      (k : String) (now : ℕ) (o : Option DeviceCodeRecord) (s : DeviceCodes)
      → lookup k s.items ≡ o
      → Each P s.items
      → ((r : DeviceCodeRecord) → (consume_row k now o s).0 ≡ some r → P r)
        × Each P (consume_row k now o s).1.items
  consume_row-Each k now none s e each = ((λ r c. absurd (cc (c))), each)
  consume_row-Each k now (some y) s e each =
      if_rule
        (λ (z : Option DeviceCodeRecord × DeviceCodes).
          ((r : DeviceCodeRecord) → z.0 ≡ some r → P r) × Each P z.1.items)
        (is_pending y.status || leb y.expires_at now) _ _ (λ _. ((λ r c. absurd (cc (c))), each))
        (λ _. (
          (λ r c. subst P (cc (c)) (Each-lookup P k s.items y each e)),
          Each-remove P k s.items each,
        ))

  poll_row-Each :
      (k : String) (now interval : ℕ) (o : Option DeviceCodeRecord) (s : DeviceCodes)
      → lookup k s.items ≡ o
      → Each P s.items
      → Each P (poll_row k now interval o s).1.items
  poll_row-Each k now interval none s e each = each
  poll_row-Each k now interval (some r) s e each =
      if_rule (λ (z : Bool × DeviceCodes). Each P z.1.items)
        (ltb 0 r.last_polled_at && ltb now (r.last_polled_at + interval)) _ _ (λ _. each)
        (λ _. Each-insert P k _ s.items each (polled r now (Each-lookup P k s.items r each e)))

  slow_row-Each :
      (k : String) (interval : ℕ) (o : Option DeviceCodeRecord) (s : DeviceCodes)
      → lookup k s.items ≡ o
      → Each P s.items
      → Each P (slow_row k interval o s).items
  slow_row-Each k interval none s e each = each
  slow_row-Each k interval (some r) s e each =
      Each-insert P k _ s.items each (slowed r interval (Each-lookup P k s.items r each e))

  poll_record-Opened :
      (k client_id : String) (r : DeviceCodeRecord) (s : DeviceGrantStores)
      → Each P s.codes.items
      → Rows R s.grants
      → Opened (poll_record rt cfg h keys k client_id r d moment s)
  unfolding poll_record DeviceCodes.consume record_poll slow_down
  poll_record-Opened k client_id r s each rows =
      let p : DeviceCodes = (record_poll k moment r.interval s.codes).1 in
      let each' : Each P p.items =
        poll_row-Each k moment r.interval (lookup k s.codes.items) s.codes refl each in
      let taken = consume_row-Each k moment (lookup k p.items) p refl each' in
      if_rule Opened (leb r.expires_at moment) _ _ (λ _. (tt, rows, each))
        (λ _.
          if_rule Opened (not (r.client_id == client_id)) _ _ (λ _. (tt, rows, each))
            (λ _.
              if_rule Opened (not (record_poll k moment r.interval s.codes).0) _ _
                (λ _. (tt, rows, slow_row-Each k _ (lookup k p.items) p refl each'))
                (λ _.
                  if_rule Opened (is_pending r.status) _ _ (λ _. (tt, rows, each'))
                    (λ _.
                      collected-Opened (DeviceCodes.consume k moment p).0
                        (DeviceCodes.consume k moment p).1 s.grants taken.0 rows taken.1))))

  poll_found-Opened :
      (k client_id : String) (o : Option DeviceCodeRecord) (s : DeviceGrantStores)
      → Each P s.codes.items
      → Rows R s.grants
      → Opened (poll_found rt cfg h keys k client_id o d moment s)
  unfolding poll_found
  poll_found-Opened k client_id none s each rows = (tt, rows, each)
  poll_found-Opened k client_id (some r) s each rows = poll_record-Opened k client_id r s each rows

  pub poll-Opened :
      (device_code client_id : String) (wall : ℕ) (s : DeviceGrantStores)
      → Each P s.codes.items
      → Rows R s.grants
      → Opened (poll rt cfg h keys device_code client_id d moment wall s)
  unfolding poll
  poll-Opened device_code client_id wall s each rows =
      if_rule Opened (device_code == "" || client_id == "") _ _ (λ _. (tt, rows, each))
        (λ _. poll_found-Opened (rt.sha256 device_code) client_id _ s each rows)
