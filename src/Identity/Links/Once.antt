-- ===== src/Identity/Links/Once.antt =====
-- A link is confirmed at most once.
use webbpulse_python.Base.{
  ℕ, Bool, true, false, not, String, Option, none, some, List, [], ◌∷◌, ◌≡◌, ◌==◌, inl, inr, All,
  refl, if_rule, Bool-cases, Option-cases,
}
use webbpulse_python.Runtime.{Runtime, IsoLaws, iso}
use webbpulse_python.Identity.Sessions.Defs.{is_expired}
use webbpulse_python.Identity.IdentityTokens.{
  IdentityTokenRecord, IdentityTokens, get, consume, is_used, consume_used, consume_missing,
  IsClosed, IsClosed-put, IsClosed-consume, IsClosed-revoke_for_user, consume-IsClosed,
}
use webbpulse_python.Identity.Links.{
  LinkSettings, Confirmation, confirmed, failed, consumed_concurrently, link_record, issue,
  rechecked, redeem, confirm_row, confirm, LinkRequest, issues, confirms, revokes, after_link,
  run_links,
}
use webbpulse_python.Identity.Links.Confirm.{
  stamped, Confirmed, through, refused, confirm-Confirmed,
}

module _ (rt : Runtime) (laws : IsoLaws rt) where
  -- Whether a confirmation went through.
  abbrev pub goes_through : Confirmation → Bool
  goes_through (confirmed r) = true
  goes_through (failed why) = false

  closed-Confirmed :
      (presented purpose : String) (moment : ℕ) (s : IdentityTokens)
      (c : Confirmation × IdentityTokens)
      → Confirmed rt laws presented purpose moment s c
      → IsClosed (rt.sha256 presented) s
      → goes_through c.0 ≡ false
  closed-Confirmed presented purpose moment s _ (through r s' (given, (found, ok)) after) closed =
      absurd (cc (closed r found, ok.unused))
  closed-Confirmed presented purpose moment s _ (refused why) closed = refl

  through-IsClosed :
      (presented purpose : String) (moment : ℕ) (s : IdentityTokens)
      (c : Confirmation × IdentityTokens)
      → Confirmed rt laws presented purpose moment s c
      → goes_through c.0 ≡ true
      → IsClosed (rt.sha256 presented) c.1
  through-IsClosed presented purpose moment s _ (through r s' found after) e = after
  through-IsClosed presented purpose moment s _ (refused why) e = absurd (cc (e))

  IsClosed-rechecked :
      (h purpose : String) (moment : ℕ) (o : Option IdentityTokenRecord) (s : IdentityTokens)
      → IsClosed h s
      → IsClosed h (rechecked rt purpose moment (o, s)).1
  unfolding rechecked
  IsClosed-rechecked h purpose moment none s closed = closed
  IsClosed-rechecked h purpose moment (some r) s closed =
      let C : Confirmation × IdentityTokens → Type 0 = λ x. IsClosed h x.1 in
      if_rule C (not (r.purpose == purpose)) _ _ (λ _. closed)
        λ _. if_rule C (is_expired r.expires_at moment) _ _ (λ _. closed) (λ _. closed)

  IsClosed-confirm_row :
      (h k purpose : String) (moment wall : ℕ) (o : Option IdentityTokenRecord) (s : IdentityTokens)
      → IsClosed h s
      → IsClosed h (confirm_row rt k purpose moment wall o s).1
  unfolding confirm_row redeem
  IsClosed-confirm_row h k purpose moment wall none s closed = closed
  IsClosed-confirm_row h k purpose moment wall (some r) s closed =
      let C : Confirmation × IdentityTokens → Type 0 = λ x. IsClosed h x.1 in
      if_rule C (not (r.purpose == purpose)) _ _ (λ _. closed)
        λ _.
          if_rule C (is_used r) _ _ (λ _. closed)
            λ _.
              if_rule C (is_expired r.expires_at moment) _ _ (λ _. closed)
                λ _.
                  IsClosed-rechecked h purpose moment _ _ (
                    IsClosed-consume h k (iso rt wall) (iso rt wall) s (stamped rt laws wall)
                      closed)

  IsClosed-confirm :
      (h presented purpose : String) (moment wall : ℕ) (s : IdentityTokens)
      → IsClosed h s
      → IsClosed h (confirm rt presented purpose moment wall s).1
  unfolding confirm
  IsClosed-confirm h presented purpose moment wall s closed =
      if_rule (λ (x : Confirmation × IdentityTokens). IsClosed h x.1) (presented == "") _ _
        (λ _. closed)
        (λ _. IsClosed-confirm_row h (rt.sha256 presented) purpose moment wall _ s closed)

  rechecked-store :
      (purpose : String) (moment : ℕ) (o : Option IdentityTokenRecord) (s : IdentityTokens)
      → (rechecked rt purpose moment (o, s)).1 ≡ s
  unfolding rechecked
  rechecked-store purpose moment none s = refl
  rechecked-store purpose moment (some r) s =
      let C : Confirmation × IdentityTokens → Type 0 = λ x. x.1 ≡ s in
      if_rule C (not (r.purpose == purpose)) _ _ (λ _. refl)
        λ _. if_rule C (is_expired r.expires_at moment) _ _ (λ _. refl) (λ _. refl)

  redeem-store :
      (h purpose : String) (moment wall : ℕ) (s : IdentityTokens)
      → (redeem rt h purpose moment wall s).1 ≡ (consume h (iso rt wall) (iso rt wall) s).1
  unfolding redeem
  redeem-store h purpose moment wall s = rechecked-store purpose moment _ _

  consume_closes :
      (h : String) (wall : ℕ) (s : IdentityTokens)
      → IsClosed h (consume h (iso rt wall) (iso rt wall) s).1
  consume_closes h wall s = elim (Option-cases (get h s)) [
    | inl missing ↦
        rw (consume_missing h (iso rt wall) (iso rt wall) s missing)
          (λ r e. absurd (cc (missing, e)))
    | inr (r, found) ↦ elim (Bool-cases (is_used r)) [
      | inl used ↦
          rw (consume_used h (iso rt wall) (iso rt wall) r s found used)
            (λ x e. cc (found, e, used))
      | inr unused ↦
          consume-IsClosed h (iso rt wall) (iso rt wall) r s found unused (stamped rt laws wall)
    ]
  ]

  closed_redeem :
      (h purpose : String) (moment wall : ℕ) (s : IdentityTokens)
      → IsClosed h s
      → (redeem rt h purpose moment wall s).0 ≡ failed consumed_concurrently
  unfolding redeem rechecked
  closed_redeem h purpose moment wall s closed = elim (Option-cases (get h s)) [
    | inl missing ↦ rw (consume_missing h (iso rt wall) (iso rt wall) s missing) refl
    | inr (r, found) ↦
        rw (consume_used h (iso rt wall) (iso rt wall) r s found (closed r found)) refl
  ]

  -- Of two requests that both passed the checks on one link before either used it, only one goes
  -- through: the second finds it used, whatever it was checked for.
  pub redeem_race :
      (h purpose purpose' : String) (moment moment' wall wall' : ℕ) (s : IdentityTokens)
      → (redeem rt h purpose' moment' wall' (redeem rt h purpose moment wall s).1).0
        ≡ failed consumed_concurrently
  redeem_race h purpose purpose' moment moment' wall wall' s =
      let closed = consume_closes h wall s in
      rw (redeem-store h purpose moment wall s) (closed_redeem h purpose' moment' wall' _ closed)

  -- No link that the request issues has the hash.
  abbrev pub IssuesOther : String → LinkRequest → Type 0
  IssuesOther h (issues token user_id purpose moment wall attributes) = rt.sha256 token == h ≡ false
  IssuesOther h _ = Unit

  module _ (cfg : LinkSettings) where
    IsClosed-after_link :
        (h : String) (q : LinkRequest) (s : IdentityTokens)
        → IssuesOther h q
        → IsClosed h s
        → IsClosed h (after_link rt cfg q s)
    unfolding issue iso
    IsClosed-after_link h (issues token user_id purpose moment wall attributes) s other closed =
        IsClosed-put h (link_record rt cfg token user_id purpose moment wall attributes) s other
          closed
    IsClosed-after_link h (confirms presented purpose moment wall) s other closed =
        IsClosed-confirm h presented purpose moment wall s closed
    IsClosed-after_link h (revokes user_id purpose wall) s other closed =
        IsClosed-revoke_for_user h user_id purpose (iso rt wall) s (laws.nonempty wall) closed

    IsClosed-run_links :
        (h : String) (qs : List LinkRequest) (s : IdentityTokens)
        → All (IssuesOther h) qs
        → IsClosed h s
        → IsClosed h (run_links rt cfg qs s)
    unfolding run_links
    IsClosed-run_links h [] s other closed = closed
    IsClosed-run_links h (q ∷ qs) s other closed =
        IsClosed-run_links h qs _ other.1 (IsClosed-after_link h q s other.0 closed)

    -- A link is confirmed at most once: after a confirmation that went through, and after any
    -- requests whose new links have other hashes, the same link is refused, whatever the purpose.
    pub confirmed_once :
        (presented purpose purpose' : String) (moment moment' wall wall' : ℕ)
        (qs : List LinkRequest) (s : IdentityTokens)
        → goes_through (confirm rt presented purpose moment wall s).0 ≡ true
        → All (IssuesOther (rt.sha256 presented)) qs
        → goes_through
            (confirm rt presented purpose' moment' wall'
              (run_links rt cfg qs (confirm rt presented purpose moment wall s).1)).0
          ≡ false
    confirmed_once presented purpose purpose' moment moment' wall wall' qs s went others =
        closed-Confirmed presented purpose' moment' _ _
          (confirm-Confirmed rt laws presented purpose' moment' wall' _)
          (IsClosed-run_links (rt.sha256 presented) qs _ others (
            through-IsClosed presented purpose moment s _
              (confirm-Confirmed rt laws presented purpose moment wall s) went))
