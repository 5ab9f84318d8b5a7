-- ===== src/Identity/ShareTokens/Final.antt =====
-- Revoking a share token, or every one onto a target, is final; a minted one opens.
use mathlib.Core.Path.{subst}
use webbpulse_python.Base.{
  ℕ, ◌≤◌, Bool, true, false, not, String, Option, none, some, List, [], ◌∷◌, ◌≡◌, ◌≢◌, ◌==◌, refl,
  sym, ◌∙◌, ap, eq_iff, eq_refl, if◌then◌else◌, if_true, if_false, if_rule, or_text, suffixed,
  starts_with-suffixed, All, inl, inr, ◌⊎◌,
}
use webbpulse_python.Base.Assoc.{lookup, insert, lookup-insert, if-some}
use webbpulse_python.Base.Rows.{Rows}
use webbpulse_python.Runtime.{Runtime, microseconds}
use webbpulse_python.Identity.ShareTokens.{
  ShareTarget, ShareTokenRecord, ShareTokens, Expiry, share_token_prefix, is_share_token,
  is_revoked, get, put, revoked_token, revoke_row, revoke, minted, mint_share_token, verified,
  verify_share_token, revoke_share_token, onto, share_target_key,
}
use webbpulse_python.Identity.ShareTokens.Sharing.{
  Kept, ShareRequest, run, Avoids, Rows-revoke, Over, run-Over, verify-Over,
}
use webbpulse_python.Identity.ShareTokens.Opening.{
  in_time, Carries, minted-Carries, is_expired-in_time, opened,
}

-- Every row stands under its own hash.
abbrev pub Hashed : {C : Type 0} → ShareTokens C → Type 0
Hashed s = Rows (λ k r. r.token_hash ≡ k) s

-- The row at a key is revoked, if there is one.
abbrev RevokedAt : {C : Type 0} → String → ShareTokens C → Type 0
RevokedAt k s = Rows (λ j r. j ≡ k → is_revoked r ≡ true) s

-- The stamp of a revocation is some text.
abbrev pub Stamps : (at now : String) → Type 0
Stamps at now = or_text at now == "" ≡ false

module _ {C : Type 0} where
  hashed-kept : Kept (λ (k : String) (r : ShareTokenRecord C). r.token_hash ≡ k)
  hashed-kept = record {
    touches = λ k now r same. same;
    revokes = λ k at now r unrevoked same. same;
  }

  revoke_row-RevokedAt :
      (k at now : String) (o : Option (ShareTokenRecord C)) (s : ShareTokens C)
      → Stamps at now
      → lookup k s ≡ o
      → RevokedAt k (revoke_row k at now o s).1
  revoke_row-RevokedAt k at now none s stamps e j r found same = absurd (cc (found, same, e))
  revoke_row-RevokedAt k at now (some x) s stamps e j r found same =
      if_rule
        (λ (y : Option (ShareTokenRecord C) × ShareTokens C).
          lookup j y.1 ≡ some r → is_revoked r ≡ true)
        (is_revoked x) _ _ (λ over found. cc (found, same, e, over))
        (λ _ found.
          elim (if-some (k == j) (revoked_token at now x) r (lookup j s)
            (sym (lookup-insert k j (revoked_token at now x) s) ∙ found)) [
              | inl (here, is) ↦ sym (ap is_revoked is) ∙ ap not stamps
              | inr (other, old) ↦ absurd (cc ((eq_iff k j).1 (sym same), other))
            ])
        found

  revoke-RevokedAt :
      (k at now : String) (s : ShareTokens C) → Stamps at now → RevokedAt k (revoke k at now s).1
  unfolding revoke
  revoke-RevokedAt k at now s stamps = revoke_row-RevokedAt k at now (lookup k s) s stamps refl

  -- A list of rows has an unrevoked one of the hash.
  abbrev HasLive : String → List (ShareTokenRecord C) → Type 0
  HasLive k [] = ⊥
  HasLive k (r ∷ rs) = ((r.token_hash ≡ k) × (is_revoked r ≡ false)) ⊎ HasLive k rs

  -- The hashes of the tenant's tokens onto the target.
  abbrev pub Onto : (tenant_id : String) → ShareTarget → ShareTokens C → String → Type 0
  Onto tenant_id t s k =
      (r : ShareTokenRecord C) × (lookup k s ≡ some r)
      × (onto tenant_id (share_target_key t.kind t.id) r ≡ true)

module _ {C : Type 0} (rt : Runtime) where
  -- Once a share token is revoked by its plaintext, presenting a plaintext after any sequence of
  -- requests never answers its row, as long as no request mints a token of the same hash. Every
  -- row stands under its own hash, and the revocation is stamped.
  pub revoke_share_token-final :
      (p at now p' now' : String) (m : ℕ) (touches : Bool) (qs : List (ShareRequest C))
      (s : ShareTokens C) (r : ShareTokenRecord C)
      → is_share_token p ≡ true
      → Stamps at now
      → Hashed s
      → All (Avoids rt (λ k. k ≡ rt.sha256 p)) qs
      → (verify_share_token rt p' now' m touches (run rt qs (revoke_share_token rt p at now s).1)).0
        ≡ some r
      → r.token_hash ≢ rt.sha256 p
  unfolding revoke_share_token
  revoke_share_token-final p at now p' now' m touches qs s r shaped stamps hashed avoids e =
      let s' : ShareTokens C = (revoke (rt.sha256 p) at now s).1 in
      let same : (if is_share_token p then rt.sha256 p else p) ≡ rt.sha256 p =
        if_true (is_share_token p) _ _ shaped in
      let over : Rows (Over rt (λ k. k ≡ rt.sha256 p)) s' = λ k x found. (
        Rows-revoke (λ k r. r.token_hash ≡ k) hashed-kept (rt.sha256 p) at now s hashed k x found,
        revoke-RevokedAt (rt.sha256 p) at now s stamps k x found,
      ) in
      verify-Over rt (λ k. k ≡ rt.sha256 p) p' now' m touches (run rt qs s') r
        (run-Over rt (λ k. k ≡ rt.sha256 p) qs s' avoids over)
        (subst
          (λ h.
            (verify_share_token rt p' now' m touches (run rt qs (revoke h at now s).1)).0 ≡ some r)
          same e)

  -- A minted token opens its own row, for a reader that presents its plaintext in time for the
  -- expiry that was asked for, and nothing after it. The row carries the tenant, the capability, the
  -- target and the names that were asked for. The token is minted after the first second of 1970.
  pub mint_share_token-verify_share_token :
      (random tenant_id : String) (c : C) (target : Option ShareTarget) (name by : String)
      (expiry : Expiry) (at now now' : String) (m m' : ℕ) (touches : Bool) (s : ShareTokens C)
      → microseconds ≤ m
      → let (plaintext, s') =
          mint_share_token rt random tenant_id c target name by expiry at now m s in
        (r : ShareTokenRecord C) × ((verify_share_token rt plaintext now' m' touches s').0
          ≡ (if in_time expiry m m' then some r else none))
        × Carries tenant_id c target name by r
  unfolding verify_share_token mint_share_token put get
  mint_share_token-verify_share_token random tenant_id c target name by expiry at now now' m m'
        touches s running =
      let h : String = rt.sha256 (suffixed share_token_prefix random) in
      let x : ShareTokenRecord C = minted rt random tenant_id c target name by expiry at now m in
      (
        x,
        ap (λ (y : Option (ShareTokenRecord C) × ShareTokens C). y.0)
              (if_false (not (is_share_token (suffixed share_token_prefix random))) _ _
                  (ap not (starts_with-suffixed share_token_prefix random))
                ∙ ap (λ o. verified rt h now' m' touches o (insert h x s))
                    (lookup-insert h h x s ∙ if_true (h == h) _ _ (eq_refl h)))
            ∙ opened rt h x (in_time expiry m m') now' m' touches (insert h x s) (eq_refl h) refl (
                is_expired-in_time rt random tenant_id c target name by expiry at now m m' running),
        minted-Carries rt random tenant_id c target name by expiry at now m,
      )
