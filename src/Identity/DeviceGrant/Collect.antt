-- ===== src/Identity/DeviceGrant/Collect.antt =====
-- A device code is collected once, whatever was read before another poll collected it.
use webbpulse_python.Base.{
  ℕ, not, ◌||◌, String, Option, none, some, List, ◌≡◌, ◌==◌, refl, ◌∙◌, leb, if_rule, Result, ok,
  All,
}
use webbpulse_python.Base.Assoc.{lookup}
use webbpulse_python.Runtime.{Runtime}
use webbpulse_python.Identity.DeviceCodes
use webbpulse_python.Identity.DeviceCodes.{
  DeviceCodes, DeviceCodeRecord, DeviceCodeStatus, is_pending, is_approved, past, approved, denied,
  record_poll, slow_down, find_by_user_code, decided, poll_row, slow_row, consume_row, decide_row,
  stored, first_live, live_record, holds_code, record_failed_lookup,
}
use webbpulse_python.Identity.DeviceGrants.{DeviceGrants}
use webbpulse_python.Identity.DeviceGrant.Defs.{
  DeviceSettings, Hooks, Keys, DeviceGrantStores, TokenBody, load_permitted,
}
use webbpulse_python.Identity.DeviceGrant.Login.{
  GrantDraws, grant_for, open_grant, collected, poll_record,
}
use webbpulse_python.Identity.DeviceGrant.Requests.{DeviceRequest, issued, run}
use webbpulse_python.Base.{if_true, eq_refl}
use webbpulse_python.Base.Assoc.{lookup-remove}
use webbpulse_python.Identity.DeviceGrant.Absent.{Absent, OtherCodes}
use webbpulse_python.Identity.DeviceGrant.Gone.{run-Absent}

module _ (rt : Runtime) (cfg : DeviceSettings) (h : Hooks) (keys : Keys) (k : String) where
  -- A poll that issues tokens leaves no row of its code.
  abbrev Takes : Result TokenBody × DeviceGrantStores → Type 0
  Takes x = (b : TokenBody) → x.0 ≡ ok b → Absent k x.1.codes

  grant_for-Takes :
      (r : DeviceCodeRecord) (d : GrantDraws) (m : ℕ) (o : Option h.User) (s : DeviceGrantStores)
      → Absent k s.codes
      → Takes (grant_for rt cfg h keys r d m o s)
  grant_for-Takes r d m none s absent = λ b e. absent
  grant_for-Takes r d m (some user) s absent = λ b e. absent

  collected-Takes :
      (d : GrantDraws) (m : ℕ) (x : Option DeviceCodeRecord × DeviceCodes) (grants : DeviceGrants)
      → ((r : DeviceCodeRecord) → x.0 ≡ some r → Absent k x.1)
      → Takes (collected rt cfg h keys d m x grants)
  unfolding collected open_grant
  collected-Takes d m (none, codes) grants gone = λ b e. absurd (cc (e))
  collected-Takes d m (some r, codes) grants gone =
      if_rule Takes (not (is_approved r.status) || r.user_id == "") _ _ (λ _ b e. absurd (cc (e)))
        (λ _. grant_for-Takes r d m (load_permitted rt cfg h keys r.user_id) _ (gone r refl))

  consume_row-gone :
      (m : ℕ) (o : Option DeviceCodeRecord) (s : DeviceCodes) (r : DeviceCodeRecord)
      → (consume_row k m o s).0 ≡ some r
      → Absent k (consume_row k m o s).1
  consume_row-gone m none s r e = absurd (cc (e))
  consume_row-gone m (some x) s r e =
      if_rule (λ (z : Option DeviceCodeRecord × DeviceCodes). z.0 ≡ some r → Absent k z.1)
        (is_pending x.status || leb x.expires_at m) _ _ (λ _ e. absurd (cc (e)))
        (λ _ e. lookup-remove k k s.items ∙ if_true (k == k) _ _ (eq_refl k)) e

  poll_record-Takes :
      (c : String) (r : DeviceCodeRecord) (d : GrantDraws) (m : ℕ) (s : DeviceGrantStores)
      → Takes (poll_record rt cfg h keys k c r d m s)
  unfolding poll_record DeviceCodes.consume
  poll_record-Takes c r d m s =
      let p : DeviceCodes = (record_poll k m r.interval s.codes).1 in
      if_rule Takes (leb r.expires_at m) _ _ (λ _ b e. absurd (cc (e)))
        (λ _.
          if_rule Takes (not (r.client_id == c)) _ _ (λ _ b e. absurd (cc (e)))
            (λ _.
              if_rule Takes (not (record_poll k m r.interval s.codes).0) _ _
                (λ _ b e. absurd (cc (e)))
                (λ _.
                  if_rule Takes (is_pending r.status) _ _ (λ _ b e. absurd (cc (e)))
                    (λ _.
                      collected-Takes d m (DeviceCodes.consume k m p) s.grants
                        (λ x e. consume_row-gone m (lookup k p.items) p x e)))))

  -- Where the code's row is gone, a poll issues nothing, whatever row it has read before.
  abbrev Nothing : Result TokenBody × DeviceGrantStores → Type 0
  Nothing x = issued x.0 ≡ none

  poll_record-Absent :
      (c : String) (r : DeviceCodeRecord) (d : GrantDraws) (m : ℕ) (s : DeviceGrantStores)
      → Absent k s.codes
      → Nothing (poll_record rt cfg h keys k c r d m s)
  unfolding poll_record DeviceCodes.consume record_poll collected
  poll_record-Absent c r d m s absent =
      if_rule Nothing (leb r.expires_at m) _ _ (λ _. refl)
        (λ _.
          if_rule Nothing (not (r.client_id == c)) _ _ (λ _. refl)
            (λ _.
              if_rule Nothing (not (record_poll k m r.interval s.codes).0) _ _ (λ _. refl)
                (λ _.
                  if_rule Nothing (is_pending r.status) _ _ (λ _. refl)
                    (λ _. rw (absent, absent)))))

  -- Where a poll of a device code issues tokens, no later poll of it does, not even one that read
  -- the code's row before, after any sequence of requests in which no start draws a device code of
  -- the same hash.
  pub poll-once :
      (c c' : String) (r r' : DeviceCodeRecord) (d d' : GrantDraws) (m m' : ℕ)
      (s : DeviceGrantStores) (qs : List DeviceRequest) (b : TokenBody)
      → All (OtherCodes rt k) qs
      → (poll_record rt cfg h keys k c r d m s).0 ≡ ok b
      → issued
          (poll_record rt cfg h keys k c' r' d' m'
            (run rt cfg h keys qs (poll_record rt cfg h keys k c r d m s).1)).0
        ≡ none
  poll-once c c' r r' d d' m m' s qs b other e =
      poll_record-Absent c' r' d' m'
        (run rt cfg h keys qs (poll_record rt cfg h keys k c r d m s).1)
        (run-Absent rt cfg h keys k qs (poll_record rt cfg h keys k c r d m s).1 other
          (poll_record-Takes c r d m s b e))
