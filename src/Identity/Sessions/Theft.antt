-- ===== src/Identity/Sessions/Theft.antt =====
-- A spent token that is presented again: a replay inside the grace window, theft outside it.
use webbpulse_python.Base.{
  ℕ, true, false, String, none, some, List, ◌≡◌, ◌≢◌, eq_iff, arith, All, if_false, if_true,
  or-false, refl, ◌∙◌,
}
use webbpulse_python.Runtime.{Runtime}
use webbpulse_python.Identity.RefreshTokens.{
  RefreshTokenRecord, RefreshTokens, get, put, is_consumed,
}
use webbpulse_python.Identity.RefreshTokens.Laws.{get-put, consume_spent}
use webbpulse_python.Identity.RefreshTokens.Rows.{EachRow}
use webbpulse_python.Identity.Sessions.Defs.{
  Settings, IssuedRefresh, replayed, reuse, minted, mint, is_expired, past_absolute_cap,
}
use webbpulse_python.Identity.Sessions.Rotate.{
  Draws, successor_of, replay_of, replay, within_grace, grace_or_reuse, lost_row,
  after_failed_consume, after_consume, rotate_live, rotate_row, rotate,
}
use webbpulse_python.Identity.Sessions.Requests.{Request, run}
use webbpulse_python.Identity.Sessions.Revocation.{
  IsClosedIn, StartsOther, revoke_family-IsClosedIn, rotate-IssuesNone, run-IsClosedIn,
}

-- The row passes the checks that `rotate` makes before it mints.
pub record IsLive (rt : Runtime) (cfg : Settings) (wall moment : ℕ) (r : RefreshTokenRecord)
    : Type 0 where
  pub not_revoked : r.revoked ≡ false
  pub not_expired : is_expired r.expires_at moment ≡ false
  pub within_cap : past_absolute_cap rt cfg wall r moment ≡ false

module _ (rt : Runtime) (cfg : Settings) (d : Draws) where
  -- The store behind the mint of `rotate`.
  abbrev pub after_mint : RefreshTokenRecord → String → String → ℕ → RefreshTokens → RefreshTokens
  after_mint r ip ua m s = put (minted rt cfg d.token d.wall (successor_of rt cfg d r ip ua m)) s

  pub get-after_mint :
      (h : String) (r : RefreshTokenRecord) (ip ua : String) (m : ℕ) (s : RefreshTokens)
      → rt.sha256 d.token ≢ h
      → get h (after_mint r ip ua m s) ≡ get h s
  unfolding minted
  get-after_mint h r ip ua m s other = ground (
    arith,
    get-put (minted rt cfg d.token d.wall (successor_of rt cfg d r ip ua m)) h s,
    eq_iff (rt.sha256 d.token) h,
  )

  pub rotate_row-live :
      (h : String) (r : RefreshTokenRecord) (ip ua : String) (m : ℕ) (s : RefreshTokens)
      → IsLive rt cfg d.wall m r
      → rotate_row rt cfg d h (some r) ip ua m s ≡ rotate_live rt cfg d h r ip ua m s
  unfolding rotate_row
  rotate_row-live h r ip ua m s live =
      if_false r.revoked _ _ live.not_revoked
      ∙ if_false _ _ _ (or-false _ _ live.not_expired live.within_cap)

  lost_to_spent :
      (h : String) (r : RefreshTokenRecord) (ip ua : String) (m : ℕ) (s : RefreshTokens)
      → get h (after_mint r ip ua m s) ≡ some r
      → is_consumed r ≡ true
      → r.revoked ≡ false
      → rotate_live rt cfg d h r ip ua m s ≡ grace_or_reuse rt cfg d r m (after_mint r ip ua m s)
  unfolding rotate_live mint after_consume after_failed_consume lost_row
  lost_to_spent h r ip ua m s found used live =
      rw (consume_spent h _ _ _ r _ found used) (rw found (rw live))

  -- A spent token that is presented again goes to the grace window's decision, with the row that
  -- the mint wrote in the store.
  spent_again :
      (presented ip ua : String) (m : ℕ) (r : RefreshTokenRecord) (s : RefreshTokens)
      → get (rt.sha256 presented) s ≡ some r
      → IsLive rt cfg d.wall m r
      → is_consumed r ≡ true
      → rt.sha256 d.token ≢ rt.sha256 presented
      → rotate rt cfg d presented ip ua m s ≡ grace_or_reuse rt cfg d r m (after_mint r ip ua m s)
  unfolding rotate
  spent_again presented ip ua m r s found live used fresh = rw found (
      rotate_row-live (rt.sha256 presented) r ip ua m s live
      ∙ lost_to_spent (rt.sha256 presented) r ip ua m s
          (get-after_mint (rt.sha256 presented) r ip ua m s fresh ∙ found) used live.not_revoked)

  -- Outside the grace window a spent token of a live row, one that is not revoked, not expired and
  -- within the absolute cap, is theft: the request reports reuse, issues nothing, and every row of
  -- the family is revoked, the row that the request itself minted included. The token that the
  -- request draws has another hash than the presented one.
  pub theft_closes_family :
      (presented ip ua : String) (m : ℕ) (r : RefreshTokenRecord) (s : RefreshTokens)
      → get (rt.sha256 presented) s ≡ some r
      → IsLive rt cfg d.wall m r
      → is_consumed r ≡ true
      → rt.sha256 d.token ≢ rt.sha256 presented
      → within_grace rt cfg d r m ≡ false
      → let (result, s') = rotate rt cfg d presented ip ua m s in
        (result.outcome ≡ reuse) × (result.issued ≡ none) × EachRow (IsClosedIn r.family_id) s'
  unfolding grace_or_reuse
  theft_closes_family presented ip ua m r s found live used fresh outside =
      rw (spent_again presented ip ua m r s found live used fresh ∙ if_false _ _ _ outside)
        (refl, refl, revoke_family-IsClosedIn r.family_id (after_mint r ip ua m s))

  -- Inside the grace window, while the successor's row is there, a spent token of a live row (not
  -- revoked, not expired, within the absolute cap) is answered with a newly drawn token of the
  -- successor's generation, in the same family and for the same user. The token that the request
  -- draws first has another hash than the presented one and than the successor's.
  pub grace_replays :
      (presented ip ua : String) (m : ℕ) (r x : RefreshTokenRecord) (s : RefreshTokens)
      → get (rt.sha256 presented) s ≡ some r
      → get r.successor_hash s ≡ some x
      → IsLive rt cfg d.wall m r
      → is_consumed r ≡ true
      → rt.sha256 d.token ≢ rt.sha256 presented
      → rt.sha256 d.token ≢ r.successor_hash
      → within_grace rt cfg d r m ≡ true
      → (i : IssuedRefresh) × ((rotate rt cfg d presented ip ua m s).0.outcome ≡ replayed)
        × ((rotate rt cfg d presented ip ua m s).0.issued ≡ some i)
        × (i.token ≡ d.replay_token)
        × (i.generation ≡ x.generation)
        × (i.family_id ≡ r.family_id)
        × (i.user_id ≡ r.user_id)
        × (i.amr ≡ r.amr)
  unfolding grace_or_reuse replay mint replay_of
  grace_replays presented ip ua m r x s found next live used fresh fresh' inside =
      rw (spent_again presented ip ua m r s found live used fresh ∙ if_true _ _ _ inside) (
        rw (get-after_mint r.successor_hash r ip ua m s fresh' ∙ next) (
          (mint rt cfg d.replay_token d.wall (replay_of rt cfg d r x m) s).0,
          refl,
          refl,
          refl,
          refl,
          refl,
          refl,
          refl,
        ))

module _ (rt : Runtime) (cfg : Settings) where
  -- After a spent token of a live row was presented outside the grace window, which is a theft
  -- detected, and after any requests that start no family of the same id, no presented token is
  -- exchanged for a token of that family. The token that the first request draws has another hash
  -- than the presented one.
  pub theft_is_final :
      (d d' : Draws) (presented presented' ip ip' ua ua' : String) (m m' : ℕ)
      (r : RefreshTokenRecord) (qs : List Request) (s : RefreshTokens) (i : IssuedRefresh)
      → get (rt.sha256 presented) s ≡ some r
      → IsLive rt cfg d.wall m r
      → is_consumed r ≡ true
      → rt.sha256 d.token ≢ rt.sha256 presented
      → within_grace rt cfg d r m ≡ false
      → All (StartsOther r.family_id) qs
      → (rotate rt cfg d' presented' ip' ua' m'
          (run rt cfg qs (rotate rt cfg d presented ip ua m s).1)).0.issued
        ≡ some i
      → i.family_id ≢ r.family_id
  theft_is_final d d' presented presented' ip ip' ua ua' m m' r qs s i found live used fresh outside
        others =
      let closed =
        theft_closes_family rt cfg d presented ip ua m r s found live used fresh outside in
      rotate-IssuesNone rt cfg r.family_id d' presented' ip' ua' m' _
        (run-IsClosedIn rt cfg r.family_id qs _ others closed.2) i
