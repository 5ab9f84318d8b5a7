-- ===== src/Identity/Links/Confirm.antt =====
-- One confirmation: what it takes, what it gives back, and what it leaves.
use webbpulse_python.Base.{
  ℕ, ◌+◌, ◌/◌, ◌<◌, true, false, not, String, Option, none, some, ◌≡◌, ◌==◌, eq_refl, arith, refl,
  if_rule, ◌∙◌, or_text,
}
use webbpulse_python.Base.Assoc.{Assoc}
use webbpulse_python.Runtime.{Runtime, IsoLaws, iso, microseconds}
use webbpulse_python.Identity.Sessions.Defs.{is_expired}
use webbpulse_python.Identity.IdentityTokens.{
  IdentityTokenRecord, IdentityTokens, get, put, consume, is_used, consume_unused, get-put,
  IsClosed, consume-IsClosed,
}
use webbpulse_python.Identity.Links.{
  LinkSettings, Confirmation, confirmed, failed, Refusal, ttl_for, link_record, issue, rechecked,
  redeem, confirm_row, confirm,
}

module _ (rt : Runtime) (laws : IsoLaws rt) where
  -- Every field that lets a link through.
  pub record Redeemable (purpose : String) (moment : ℕ) (r : IdentityTokenRecord) : Type 0 where
    pub same_purpose : r.purpose == purpose ≡ true
    pub unused : is_used r ≡ false
    pub in_time : is_expired r.expires_at moment ≡ false

  pub stamped : (wall : ℕ) → or_text (iso rt wall) (iso rt wall) == "" ≡ false
  unfolding iso
  stamped wall = ground (arith, laws.nonempty wall)

  redeem-redeems :
      (h purpose : String) (moment wall : ℕ) (r : IdentityTokenRecord) (s : IdentityTokens)
      → get h s ≡ some r
      → Redeemable purpose moment r
      → redeem rt h purpose moment wall s
        ≡ (confirmed r, (consume h (iso rt wall) (iso rt wall) s).1)
  unfolding redeem rechecked
  redeem-redeems h purpose moment wall r s found ok =
      let (won, _) = consume_unused h (iso rt wall) (iso rt wall) r s found ok.unused in
      rw (won, ok.same_purpose, ok.in_time) refl

  -- Whether a link is there to be confirmed, by the row of its hash.
  abbrev pub Confirmable : String → String → ℕ → IdentityTokens → IdentityTokenRecord → Type 0
  Confirmable presented purpose moment s r =
      (presented == "" ≡ false)
      × ((get (rt.sha256 presented) s ≡ some r) × Redeemable purpose moment r)

  -- A presented link whose row is of the asked purpose, unused and in time is confirmed with that
  -- row, and no row at its hash can be confirmed any more.
  pub confirm-redeems :
      (presented purpose : String) (moment wall : ℕ) (r : IdentityTokenRecord) (s : IdentityTokens)
      → Confirmable presented purpose moment s r
      → ((confirm rt presented purpose moment wall s).0 ≡ confirmed r)
        × IsClosed (rt.sha256 presented) (confirm rt presented purpose moment wall s).1
  unfolding confirm confirm_row
  confirm-redeems presented purpose moment wall r s (given, (found, ok)) =
      let h = rt.sha256 presented in
      rw
        (
          given,
          found,
          ok.same_purpose,
          ok.unused,
          ok.in_time,
          redeem-redeems h purpose moment wall r s found ok,
        )
        (refl, consume-IsClosed h (iso rt wall) (iso rt wall) r s found ok.unused (stamped wall))

  -- What one confirmation does: the link goes through and is closed, or nothing changes.
  pub data Confirmed (presented purpose : String) (moment : ℕ) (s : IdentityTokens)
      : Confirmation × IdentityTokens → Type 0 where
    through :
        (r : IdentityTokenRecord) (s' : IdentityTokens)
        → Confirmable presented purpose moment s r
        → IsClosed (rt.sha256 presented) s'
        → Confirmed presented purpose moment s (confirmed r, s')
    refused : (why : Refusal) → Confirmed presented purpose moment s (failed why, s)

  confirm_row-Confirmed :
      (presented purpose : String) (moment wall : ℕ) (s : IdentityTokens)
      → presented == "" ≡ false
      → (o : Option IdentityTokenRecord) → get (rt.sha256 presented) s ≡ o
      → Confirmed presented purpose moment s
          (confirm_row rt (rt.sha256 presented) purpose moment wall o s)
  unfolding confirm_row
  confirm_row-Confirmed presented purpose moment wall s given none e = refused _
  confirm_row-Confirmed presented purpose moment wall s given (some r) e =
      let h = rt.sha256 presented in
      let C = Confirmed presented purpose moment s in
      if_rule C (not (r.purpose == purpose)) _ _ (λ _. refused _)
        λ same.
          if_rule C (is_used r) _ _ (λ _. refused _)
            λ unused.
              if_rule C (is_expired r.expires_at moment) _ _ (λ _. refused _)
                λ in_time.
                  let ok : Redeemable purpose moment r = record {
                    same_purpose = ground (arith, same);
                    unused = unused;
                    in_time = in_time;
                  } in
                  rw (redeem-redeems h purpose moment wall r s e ok) (
                    through r _ (given, (e, ok))
                      (consume-IsClosed h (iso rt wall) (iso rt wall) r s e unused (stamped wall)))

  -- A confirmation either returns the row of the presented link, which was then of the asked
  -- purpose, unused and in time, and closes it; or it is refused and leaves the store as it was, so
  -- a link presented for another purpose is not used up.
  pub confirm-Confirmed :
      (presented purpose : String) (moment wall : ℕ) (s : IdentityTokens)
      → Confirmed presented purpose moment s (confirm rt presented purpose moment wall s)
  unfolding confirm
  confirm-Confirmed presented purpose moment wall s =
      if_rule (Confirmed presented purpose moment s) (presented == "") _ _ (λ _. refused _)
        λ given.
          confirm_row-Confirmed presented purpose moment wall s given (get (rt.sha256 presented) s)
            refl

  module _ (cfg : LinkSettings) where
    -- A link that was just issued is confirmed for its own purpose at any moment before its second of
    -- expiry, and gives back the user and the attributes it was issued for.
    pub issue-confirm :
        (token user_id purpose : String) (moment wall moment' wall' : ℕ) (attributes : Assoc String)
        (s : IdentityTokens)
        → token == "" ≡ false
        → moment' / microseconds < (moment + ttl_for cfg purpose) / microseconds
        → (confirm rt token purpose moment' wall'
            (issue rt cfg token user_id purpose moment wall attributes s).1).0
          ≡ confirmed (link_record rt cfg token user_id purpose moment wall attributes)
    unfolding issue is_expired
    issue-confirm token user_id purpose moment wall moment' wall' attributes s given early =
        let r = link_record rt cfg token user_id purpose moment wall attributes in
        (confirm-redeems token purpose moment' wall' r (put r s) (
          given,
          (
            get-put r (rt.sha256 token) s ∙ rw (eq_refl (rt.sha256 token)) refl,
            record {
              same_purpose = eq_refl purpose;
              unused = refl;
              in_time = ground (arith, early);
            },
          ),
        )).0
