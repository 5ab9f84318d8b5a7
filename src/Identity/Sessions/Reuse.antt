-- ===== src/Identity/Sessions/Reuse.antt =====
-- A refresh token rotates at most once.
use webbpulse_python.Base.{
  ℕ, true, false, String, Option, none, some, List, ◌≡◌, ◌≢◌, ◌==◌, eq_iff, arith, inl, inr, All,
  if_rule, refl, All-map, ◌||◌,
}
use webbpulse_python.Runtime.{Runtime, IsoLaws, iso}
use webbpulse_python.Identity.RefreshTokens.{
  RefreshTokenRecord, RefreshTokens, get, consume, is_consumed,
}
use webbpulse_python.Identity.RefreshTokens.Laws.{get-consume, consume-cases}
use webbpulse_python.Identity.RefreshTokens.Rows.{EachRow, EachRow-put}
use webbpulse_python.Identity.Sessions.Defs.{
  Settings, IssuedRefresh, rotated, RotationResult, minted, mint, is_expired, past_absolute_cap,
}
use webbpulse_python.Identity.Sessions.Rotate.{
  Draws, successor_of, replay, within_grace, grace_or_reuse, lost_row, after_failed_consume,
  after_consume, rotate_live, rotate_row, rotate,
}
use webbpulse_python.Identity.Sessions.Requests.{
  Request, signs_in, refreshes, IsStable, MintsGood, run, run-EachRow,
}

-- The row at one hash, if it is there, has been spent.
abbrev pub IsSpentAt : String → String → RefreshTokenRecord → Type 0
IsSpentAt spent_hash h r = h ≡ spent_hash → is_consumed r ≡ true

module _ (rt : Runtime) (cfg : Settings) (spent_hash : String) where
  -- No token that the request draws has the hash.
  abbrev pub DrawsOther : Request → Type 0
  DrawsOther (signs_in q) = rt.sha256 q.token ≢ spent_hash
  DrawsOther (refreshes q) =
      (rt.sha256 q.draws.token ≢ spent_hash) × (rt.sha256 q.draws.replay_token ≢ spent_hash)
  DrawsOther _ = Unit

  IsSpentAt-stable : IsStable rt cfg (IsSpentAt spent_hash)
  IsSpentAt-stable = record {
    on_revoke = λ h r p. p;
    on_spend = λ h succ at r p unspent e. absurd (cc (p e));
    on_step_up = λ h t r p. p;
  }

  DrawsOther-MintsGood : (q : Request) → DrawsOther q → MintsGood rt cfg (IsSpentAt spent_hash) q
  DrawsOther-MintsGood (signs_in q) other = λ e. absurd (other e)
  DrawsOther-MintsGood (refreshes q) other =
      (λ h r ip ua m p live e. absurd (other.0 e), λ h h' r r' m p p' live e. absurd (other.1 e))
  DrawsOther-MintsGood _ other = tt

-- What a request made of the store, when it reports that it rotated.
abbrev Spends : String → RotationResult × RefreshTokens → Type 0
Spends h x = x.0.outcome ≡ rotated → EachRow (IsSpentAt h) x.1

abbrev NotRotated : RotationResult × RefreshTokens → Type 0
NotRotated x = x.0.outcome ≢ rotated

module _ (rt : Runtime) (cfg : Settings) (d : Draws) where
  replay-ne-rotated :
      (r : RefreshTokenRecord) (o : Option RefreshTokenRecord) (m : ℕ) (s : RefreshTokens)
      → NotRotated (replay rt cfg d r o m s)
  unfolding replay
  replay-ne-rotated r none m s = cc
  replay-ne-rotated r (some x) m s = cc

  lost_row-ne-rotated :
      (o : Option RefreshTokenRecord) (m : ℕ) (s : RefreshTokens)
      → NotRotated (lost_row rt cfg d o m s)
  unfolding lost_row grace_or_reuse
  lost_row-ne-rotated none m s = cc
  lost_row-ne-rotated (some r) m s =
      if_rule NotRotated r.revoked _ _ (λ _. cc)
        λ _.
          if_rule NotRotated (within_grace rt cfg d r m) _ _
            (λ _. replay-ne-rotated r (get r.successor_hash s) m s) (λ _. cc)

  after_consume-ne-rotated :
      (h succ at now : String) (r : RefreshTokenRecord) (i : IssuedRefresh) (m : ℕ)
      (s : RefreshTokens)
      → EachRow (IsSpentAt h) s
      → NotRotated (after_consume rt cfg d h r i m (consume h succ at now s))
  unfolding after_consume after_failed_consume
  after_consume-ne-rotated h succ at now r i m s each = elim (consume-cases h succ at now s) [
    | inl same ↦ rw same (lost_row-ne-rotated (get h s) m s)
    | inr (x, found, unspent, won) ↦ absurd (cc (each.at h x found refl))
  ]

  rotate_row-ne-rotated :
      (h : String) (o : Option RefreshTokenRecord) (ip ua : String) (m : ℕ) (s : RefreshTokens)
      → rt.sha256 d.token ≢ h
      → EachRow (IsSpentAt h) s
      → NotRotated (rotate_row rt cfg d h o ip ua m s)
  unfolding rotate_row rotate_live mint minted
  rotate_row-ne-rotated h none ip ua m s other each = cc
  rotate_row-ne-rotated h (some r) ip ua m s other each =
      if_rule NotRotated r.revoked _ _ (λ _. cc)
        λ _.
          if_rule NotRotated (is_expired r.expires_at m || past_absolute_cap rt cfg d.wall r m) _ _
            (λ _. cc)
            (λ _. after_consume-ne-rotated h _ _ _ r _ m _ (
              EachRow-put (IsSpentAt h)
                (minted rt cfg d.token d.wall (successor_of rt cfg d r ip ua m)) s each
                (λ e. absurd (other e))))

  -- A token whose row is spent does not rotate.
  pub spent_refused :
      (presented ip ua : String) (m : ℕ) (s : RefreshTokens)
      → rt.sha256 d.token ≢ rt.sha256 presented
      → EachRow (IsSpentAt (rt.sha256 presented)) s
      → (rotate rt cfg d presented ip ua m s).0.outcome ≢ rotated
  unfolding rotate
  spent_refused presented ip ua m s = rotate_row-ne-rotated (rt.sha256 presented) _ ip ua m s

  marked_spent :
      (h succ at now : String) (x : RefreshTokenRecord) (s : RefreshTokens)
      → get h s ≡ some x
      → is_consumed x ≡ false
      → at == "" ≡ false
      → EachRow (IsSpentAt h) (consume h succ at now s).1
  marked_spent h succ at now x s found unspent nonempty = record {
    at = λ j r e same. ground (arith, get-consume h succ at now j x s found unspent, eq_iff h j);
  }

  won-Spends :
      (h : String) (r x : RefreshTokenRecord) (i : IssuedRefresh) (m : ℕ)
      (o : Option RefreshTokenRecord) (s : RefreshTokens)
      → o ≡ some x
      → EachRow (IsSpentAt h) s
      → Spends h (after_consume rt cfg d h r i m (o, s))
  unfolding after_consume
  won-Spends h r x i m none s e each = absurd (cc)
  won-Spends h r x i m (some _) s e each = λ _. each

  after_consume-Spends :
      (h succ at now : String) (r : RefreshTokenRecord) (i : IssuedRefresh) (m : ℕ)
      (s : RefreshTokens)
      → at == "" ≡ false
      → Spends h (after_consume rt cfg d h r i m (consume h succ at now s))
  unfolding after_consume after_failed_consume
  after_consume-Spends h succ at now r i m s nonempty = elim (consume-cases h succ at now s) [
    | inl same ↦ rw same (λ e. absurd (lost_row-ne-rotated (get h s) m s e))
    | inr (x, found, unspent, won) ↦
        won-Spends h r x i m (consume h succ at now s).0 (consume h succ at now s).1 won
          (marked_spent h succ at now x s found unspent nonempty)
  ]

  rotate_row-Spends :
      (h : String) (o : Option RefreshTokenRecord) (ip ua : String) (m : ℕ) (s : RefreshTokens)
      → IsoLaws rt
      → Spends h (rotate_row rt cfg d h o ip ua m s)
  unfolding rotate_row rotate_live mint iso
  rotate_row-Spends h none ip ua m s laws = λ e. absurd (cc)
  rotate_row-Spends h (some r) ip ua m s laws =
      if_rule (Spends h) r.revoked _ _ (λ _ e. absurd (cc))
        λ _.
          if_rule (Spends h) (is_expired r.expires_at m || past_absolute_cap rt cfg d.wall r m) _ _
            (λ _ e. absurd (cc)) (λ _. after_consume-Spends h _ _ _ r _ m _ (laws.nonempty m))

  pub rotated-Spends :
      (presented ip ua : String) (m : ℕ) (s : RefreshTokens)
      → IsoLaws rt
      → Spends (rt.sha256 presented) (rotate rt cfg d presented ip ua m s)
  unfolding rotate
  rotated-Spends presented ip ua m s = rotate_row-Spends (rt.sha256 presented) _ ip ua m s

module _ (rt : Runtime) (cfg : Settings) (laws : IsoLaws rt) where
  -- A refresh token rotates at most once: after the request that rotated it, and after any requests
  -- whose new tokens have other hashes, a later request that presents the same token does not rotate.
  pub rotates_once :
      (d d' : Draws) (presented ip ip' ua ua' : String) (m m' : ℕ) (qs : List Request)
      (s : RefreshTokens)
      → (rotate rt cfg d presented ip ua m s).0.outcome ≡ rotated
      → All (DrawsOther rt cfg (rt.sha256 presented)) qs
      → rt.sha256 d'.token ≢ rt.sha256 presented
      → (rotate rt cfg d' presented ip' ua' m'
          (run rt cfg qs (rotate rt cfg d presented ip ua m s).1)).0.outcome
        ≢ rotated
  rotates_once d d' presented ip ip' ua ua' m m' qs s won others other =
      spent_refused rt cfg d' presented ip' ua' m' _ other (
        run-EachRow rt cfg (IsSpentAt (rt.sha256 presented))
          (IsSpentAt-stable rt cfg (rt.sha256 presented)) qs _
          (All-map (DrawsOther-MintsGood rt cfg (rt.sha256 presented)) qs others)
          (rotated-Spends rt cfg d presented ip ua m s laws won))
