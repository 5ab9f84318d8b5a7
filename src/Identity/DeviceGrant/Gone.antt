-- ===== src/Identity/DeviceGrant/Gone.antt =====
-- No request brings back a device code whose row is gone, but a start that draws it.
use webbpulse_python.Base.{
  ℕ, Bool, true, false, not, ◌&&◌, ◌||◌, String, Option, none, some, List, [], ◌∷◌, ◌==◌, refl, leb,
  if◌then◌else◌, if_rule, Result, All, nat_eq, length,
}
use webbpulse_python.Base.Assoc.{lookup}
use webbpulse_python.Runtime.{Runtime}
use webbpulse_python.Identity.DeviceCodes
use webbpulse_python.Identity.DeviceCodes.{
  DeviceCodes, DeviceCodeRecord, DeviceCodeStatus, is_pending, is_approved, past, approved, denied,
  record_poll, slow_down, find_by_user_code, decided, poll_row, slow_row, consume_row, decide_row,
  stored, first_live, live_record, holds_code, record_failed_lookup,
}
use webbpulse_python.Identity.DeviceGrants.{DeviceGrants}
use webbpulse_python.Identity.DeviceGrant.Defs.{
  DeviceSettings, Hooks, Keys, DeviceGrantStores, DeviceApproval, TokenBody, load_permitted,
}
use webbpulse_python.Identity.DeviceGrant.Login.{
  GrantDraws, grant_for, open_grant, collected, poll_record, poll_found, poll, decide, find_pending,
  note_failed_lookup, lookups_exhausted, approval_signature,
}
use webbpulse_python.Identity.DeviceGrant.Requests.{
  DeviceRequest, starts, approves, polls, refreshes, revokes_token, revokes_grant, revokes_all,
  purges, step, run, approve, answer_approval, decision_answer, ApproveAnswer,
}
use webbpulse_python.Identity.DeviceGrant.Codes.{live_record-some}
use webbpulse_python.Identity.DeviceGrant.Absent.{
  Absent, OtherCodes, remove_where-Absent, start-Absent, decide_row-Absent, poll_row-Absent,
  slow_row-Absent, consume_row-Absent,
}

module _ (rt : Runtime) (cfg : DeviceSettings) (h : Hooks) (keys : Keys) (k : String) where
  approve-Absent :
      (uc u sig : String) (allow : Bool) (at m w : ℕ) (s : DeviceCodes)
      → Absent k s
      → Absent k (approve rt cfg h keys uc u sig allow at m w s).1
  unfolding approve decide DeviceCodes.decide DeviceCodes.get note_failed_lookup
      record_failed_lookup
  approve-Absent uc u sig allow at m w s absent =
      if_rule (λ (z : ApproveAnswer × DeviceCodes). Absent k z.1) (lookups_exhausted rt cfg u m s) _
        _ (λ _. absent) (λ _. answered (find_pending rt cfg h keys uc u w s))
    where
      through :
          (x : Bool × DeviceCodes)
          → Absent k x.1
          → Absent k (decision_answer rt cfg h keys allow x).1
      through (true, s') kept = kept
      through (false, s') kept = kept

      answered :
          (o : Option DeviceApproval)
          → Absent k (answer_approval rt cfg h keys u sig allow at m w o s).1
      answered none = absent
      answered (some a) =
          if_rule (λ (z : ApproveAnswer × DeviceCodes). Absent k z.1)
            (not (sig == approval_signature rt cfg h keys a u)) _ _ (λ _. absent)
            (λ _. through (decide rt cfg h keys a u allow at w s) (
              if_rule (λ (z : Bool × DeviceCodes). Absent k z.1)
                (allow && nat_eq (length a.scopes) 0) _ _ (λ _. absent)
                (λ _.
                  decide_row-Absent k a.row.device_code_hash
                    (decided (if allow then approved else denied) u (if allow then a.scopes else [])
                      at)
                    (live_record (lookup a.row.device_code_hash s.items) false w) s
                    (λ r e. live_record-some (lookup a.row.device_code_hash s.items) w r e)
                    absent)))

  abbrev StillAbsent : Result TokenBody × DeviceGrantStores → Type 0
  StillAbsent x = Absent k x.1.codes

  grant_for-Absent :
      (r : DeviceCodeRecord) (d : GrantDraws) (m : ℕ) (o : Option h.User) (s : DeviceGrantStores)
      → Absent k s.codes
      → StillAbsent (grant_for rt cfg h keys r d m o s)
  grant_for-Absent r d m none s absent = absent
  grant_for-Absent r d m (some user) s absent = absent

  collected-Absent :
      (d : GrantDraws) (m : ℕ) (x : Option DeviceCodeRecord × DeviceCodes) (grants : DeviceGrants)
      → Absent k x.1
      → StillAbsent (collected rt cfg h keys d m x grants)
  unfolding collected open_grant
  collected-Absent d m (none, codes) grants absent = absent
  collected-Absent d m (some r, codes) grants absent =
      if_rule StillAbsent (not (is_approved r.status) || r.user_id == "") _ _ (λ _. absent)
        (λ _. grant_for-Absent r d m (load_permitted rt cfg h keys r.user_id) _ absent)

  poll_record-Absent :
      (j c : String) (r : DeviceCodeRecord) (d : GrantDraws) (m : ℕ) (s : DeviceGrantStores)
      → Absent k s.codes
      → StillAbsent (poll_record rt cfg h keys j c r d m s)
  unfolding poll_record DeviceCodes.consume record_poll slow_down
  poll_record-Absent j c r d m s absent =
      let p : DeviceCodes = (record_poll j m r.interval s.codes).1 in
      let absent' : Absent k p =
        poll_row-Absent k j m r.interval (lookup j s.codes.items) s.codes refl absent in
      if_rule StillAbsent (leb r.expires_at m) _ _ (λ _. absent)
        (λ _.
          if_rule StillAbsent (not (r.client_id == c)) _ _ (λ _. absent)
            (λ _.
              if_rule StillAbsent (not (record_poll j m r.interval s.codes).0) _ _
                (λ _. slow_row-Absent k j _ (lookup j p.items) p refl absent')
                (λ _.
                  if_rule StillAbsent (is_pending r.status) _ _ (λ _. absent')
                    (λ _.
                      collected-Absent d m (DeviceCodes.consume j m p) s.grants
                        (consume_row-Absent k j m (lookup j p.items) p absent')))))

  poll-Absent :
      (dc c : String) (d : GrantDraws) (m w : ℕ) (s : DeviceGrantStores)
      → Absent k s.codes
      → StillAbsent (poll rt cfg h keys dc c d m w s)
  unfolding poll poll_found
  poll-Absent dc c d m w s absent =
      if_rule StillAbsent (dc == "" || c == "") _ _ (λ _. absent)
        (λ _. found (DeviceCodes.get (rt.sha256 dc) true w s.codes))
    where
      found :
          (o : Option DeviceCodeRecord)
          → StillAbsent (poll_found rt cfg h keys (rt.sha256 dc) c o d m s)
      found none = absent
      found (some r) = poll_record-Absent (rt.sha256 dc) c r d m s absent

  pub step-Absent :
      (q : DeviceRequest) (s : DeviceGrantStores)
      → OtherCodes rt k q
      → Absent k s.codes
      → Absent k (step rt cfg h keys q s).1.codes
  unfolding step DeviceCodes.delete_all_for_user
  step-Absent (starts c sc draws m w) s other absent =
      start-Absent k rt cfg c sc draws m w s.codes other absent
  step-Absent (approves uc u sig allow at m w) s other absent =
      approve-Absent uc u sig allow at m w s.codes absent
  step-Absent (polls dc c d m w) s other absent = poll-Absent dc c d m w s absent
  step-Absent (refreshes _ _ _ _) s other absent = absent
  step-Absent (revokes_token _) s other absent = absent
  step-Absent (revokes_grant _ _) s other absent = absent
  step-Absent (revokes_all _) s other absent = absent
  step-Absent (purges u) s other absent =
      remove_where-Absent k (λ r. r.user_id == u) s.codes.items absent

  pub run-Absent :
      (qs : List DeviceRequest) (s : DeviceGrantStores)
      → All (OtherCodes rt k) qs
      → Absent k s.codes
      → Absent k (run rt cfg h keys qs s).codes
  unfolding run
  run-Absent [] s other absent = absent
  run-Absent (q ∷ qs) s other absent =
      run-Absent qs (step rt cfg h keys q s).1 other.1 (step-Absent q s other.0 absent)
