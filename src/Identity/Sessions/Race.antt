-- ===== src/Identity/Sessions/Race.antt =====
-- A logout between the first read of a refresh and its writes. The condition of the consume tests
-- `consumed_at` alone, so it does not see the revocation.
use webbpulse_python.Base.{
  ℕ, ◌+◌, false, String, Option, none, some, ◌≡◌, ◌≢◌, eq_iff, eq_refl, arith, refl, ◌∙◌, ap,
}
use webbpulse_python.Base.Assoc.{map_option}
use webbpulse_python.Runtime.{Runtime}
use webbpulse_python.Identity.RefreshTokens.{
  RefreshTokenRecord, RefreshTokens, get, put, consume, is_consumed, revoke_family,
}
use webbpulse_python.Identity.RefreshTokens.Laws.{
  get-put, get-revoke_family, get-consume, consume_unspent, revoked_in,
}
use webbpulse_python.Identity.Sessions.Defs.{Settings, IssuedRefresh, rotated, minted, mint}
use webbpulse_python.Identity.Sessions.Rotate.{
  Draws, successor_of, after_consume, rotate_live, issue,
}
use webbpulse_python.Identity.Sessions.Theft.{get-after_mint}

module _ (rt : Runtime) (cfg : Settings) (d : Draws) where
  -- A consume that finds its row unspent wins, whatever else the row says.
  wins :
      (h : String) (r x : RefreshTokenRecord) (i : IssuedRefresh) (succ at now : String) (m : ℕ)
      (s : RefreshTokens)
      → get h s ≡ some x
      → is_consumed x ≡ false
      → after_consume rt cfg d h r i m (consume h succ at now s)
        ≡ (issue rotated i r, (consume h succ at now s).1)
  unfolding after_consume
  wins h r x i succ at now m s found unspent =
      won (consume h succ at now s).0 (consume h succ at now s).1
        (consume_unspent h succ at now x s found unspent)
    where
      won :
          (o : Option RefreshTokenRecord) (s' : RefreshTokens)
          → o ≡ some x
          → after_consume rt cfg d h r i m (o, s') ≡ (issue rotated i r, s')
      won none s' e = absurd (cc)
      won (some _) s' e = refl

  -- The store that a winning rotation leaves, at the hash of its successor.
  successor_row :
      (h succ at now : String) (x y : RefreshTokenRecord) (s : RefreshTokens)
      → get h s ≡ some x
      → is_consumed x ≡ false
      → y.token_hash ≢ h
      → get y.token_hash s ≡ some y
      → get y.token_hash (consume h succ at now s).1 ≡ some y
  successor_row h succ at now x y s found unspent other there =
      ground
        (arith, get-consume h succ at now y.token_hash x s found unspent, eq_iff h y.token_hash)

  -- A rotation that wins leaves its successor's row in the store, exactly as it was minted.
  pub rotate_live-wins :
      (h : String) (r x : RefreshTokenRecord) (ip ua : String) (m : ℕ) (s : RefreshTokens)
      → get h s ≡ some x
      → is_consumed x ≡ false
      → rt.sha256 d.token ≢ h
      → ((rotate_live rt cfg d h r ip ua m s).0
          ≡ issue rotated (mint rt cfg d.token d.wall (successor_of rt cfg d r ip ua m) s).0 r)
        × (get (rt.sha256 d.token) (rotate_live rt cfg d h r ip ua m s).1
            ≡ some (minted rt cfg d.token d.wall (successor_of rt cfg d r ip ua m)))
  unfolding rotate_live mint minted
  rotate_live-wins h r x ip ua m s found unspent other =
      let y = minted rt cfg d.token d.wall (successor_of rt cfg d r ip ua m) in
      let found' = get-after_mint rt cfg d h r ip ua m s other ∙ found in
      rw (wins h r x _ _ _ _ m (put y s) found' unspent) (
        refl,
        successor_row h _ _ _ x y (put y s) found' unspent other
            (get-put y y.token_hash s ∙ rw (eq_refl y.token_hash)),
      )

  revoked_unspent :
      (h : String) (r : RefreshTokenRecord) (s : RefreshTokens)
      → get h s ≡ some r
      → get h (revoke_family r.family_id s).1 ≡ some (revoked_in r.family_id r)
  revoked_unspent h r s found =
      get-revoke_family r.family_id h s ∙ ap (map_option (revoked_in r.family_id)) found

  revoked_in-unspent :
      (f : String) (r : RefreshTokenRecord)
      → is_consumed r ≡ false
      → is_consumed (revoked_in f r) ≡ false
  revoked_in-unspent f r unspent = ground arith

  -- When the family of an unspent token is revoked after a refresh has read and checked its row, the
  -- refresh still rotates, where the token it draws has another hash: it issues the drawn token at the
  -- next generation for the same user, and the row of that token is in the revoked family, unrevoked.
  pub revocation_race :
      (h : String) (r : RefreshTokenRecord) (ip ua : String) (m : ℕ) (s : RefreshTokens)
      → get h s ≡ some r
      → is_consumed r ≡ false
      → rt.sha256 d.token ≢ h
      → let (result, s') = rotate_live rt cfg d h r ip ua m (revoke_family r.family_id s).1 in
        (i : IssuedRefresh) × (y : RefreshTokenRecord) × (result.outcome ≡ rotated)
        × (result.issued ≡ some i)
        × (i.token ≡ d.token)
        × (i.generation ≡ r.generation + 1)
        × (i.user_id ≡ r.user_id)
        × (i.family_id ≡ r.family_id)
        × (get (rt.sha256 d.token) s' ≡ some y)
        × (y.family_id ≡ r.family_id)
        × (y.revoked ≡ false)
  unfolding mint minted successor_of
  revocation_race h r ip ua m s found unspent other =
      let (answer, there) =
        rotate_live-wins h r (revoked_in r.family_id r) ip ua m (revoke_family r.family_id s).1
          (revoked_unspent h r s found) (revoked_in-unspent r.family_id r unspent) other in
      (
        (mint rt cfg d.token d.wall (successor_of rt cfg d r ip ua m)
            (revoke_family r.family_id s).1).0,
        minted rt cfg d.token d.wall (successor_of rt cfg d r ip ua m),
        ap (λ x. x.outcome) answer,
        ap (λ x. x.issued) answer,
        refl,
        refl,
        refl,
        refl,
        there,
        refl,
        refl,
      )
