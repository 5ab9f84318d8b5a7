-- ===== src/Identity/Sessions/Keeps.antt =====
-- The rule by which a property of every row survives a rotation, on each of its paths.
use webbpulse_python.Base.{
  ℕ, false, ◌||◌, String, Option, none, some, ◌≡◌, inl, inr, refl, if_rule, or_text,
}
use webbpulse_python.Runtime.{Runtime}
use webbpulse_python.Identity.RefreshTokens.{
  RefreshTokenRecord, RefreshTokens, get, consume, spent, revoke_record, is_consumed,
}
use webbpulse_python.Identity.RefreshTokens.Laws.{consume-cases}
use webbpulse_python.Identity.RefreshTokens.Rows.{
  EachRow, EachRow-put, EachRow-consume, EachRow-revoke_family,
}
use webbpulse_python.Identity.Sessions.Defs.{
  Settings, IssuedRefresh, RotationResult, past_absolute_cap, is_expired, minted, mint,
}
use webbpulse_python.Identity.Sessions.Rotate.{
  Draws, successor_of, replay_of, within_grace, replay, grace_or_reuse, lost_row,
  after_failed_consume, after_consume, rotate_live, rotate_row, rotate,
}

module _ (rt : Runtime) (cfg : Settings) (d : Draws) (P : String → RefreshTokenRecord → Type 0)
    (keep_revoke : (h : String) (r : RefreshTokenRecord) → P h r → P h (revoke_record r))
    (keep_spent : (h succ at : String) (r : RefreshTokenRecord)
      → P h r
      → is_consumed r ≡ false
      → P h (spent succ at r))
    (keep_successor : (h : String) (r : RefreshTokenRecord) (ip user_agent : String) (moment : ℕ)
      → P h r
      → r.revoked ≡ false
      → P
          (rt.sha256 d.token)
          (minted rt cfg d.token d.wall (successor_of rt cfg d r ip user_agent moment)))
    (keep_replay : (h h' : String) (r r' : RefreshTokenRecord) (moment : ℕ)
      → P h r
      → P h' r'
      → r.revoked ≡ false
      → P
          (rt.sha256 d.replay_token)
          (minted rt cfg d.replay_token d.wall (replay_of rt cfg d r r' moment))) where
  abbrev Kept : RotationResult × RefreshTokens → Type 0
  Kept x = EachRow P x.1

  replay-EachRow :
      (h : String) (current : RefreshTokenRecord) (o : Option RefreshTokenRecord) (moment : ℕ)
      (s : RefreshTokens)
      → get h s ≡ some current
      → get current.successor_hash s ≡ o
      → current.revoked ≡ false
      → EachRow P s
      → EachRow P (replay rt cfg d current o moment s).1
  unfolding replay mint minted
  replay-EachRow h current none moment s e e' live each =
      EachRow-revoke_family P keep_revoke current.family_id s each
  replay-EachRow h current (some r') moment s e e' live each =
      EachRow-put P (minted rt cfg d.replay_token d.wall (replay_of rt cfg d current r' moment)) s
        each
        (keep_replay h current.successor_hash current r' moment (each.at h current e)
          (each.at current.successor_hash r' e') live)

  grace_or_reuse-EachRow :
      (h : String) (current : RefreshTokenRecord) (moment : ℕ) (s : RefreshTokens)
      → get h s ≡ some current
      → current.revoked ≡ false
      → EachRow P s
      → EachRow P (grace_or_reuse rt cfg d current moment s).1
  unfolding grace_or_reuse
  grace_or_reuse-EachRow h current moment s e live each =
      if_rule Kept (within_grace rt cfg d current moment) _ _
        (λ _. replay-EachRow h current (get current.successor_hash s) moment s e refl live each)
        (λ _. EachRow-revoke_family P keep_revoke current.family_id s each)

  lost_row-EachRow :
      (h : String) (o : Option RefreshTokenRecord) (moment : ℕ) (s : RefreshTokens)
      → get h s ≡ o
      → EachRow P s
      → EachRow P (lost_row rt cfg d o moment s).1
  unfolding lost_row
  lost_row-EachRow h none moment s e each = each
  lost_row-EachRow h (some current) moment s e each =
      if_rule Kept current.revoked _ _ (λ _. each)
        (λ live. grace_or_reuse-EachRow h current moment s e live each)

  won_row :
      (h : String) (r x : RefreshTokenRecord) (i : IssuedRefresh) (moment : ℕ)
      (o : Option RefreshTokenRecord) (s : RefreshTokens)
      → o ≡ some x
      → EachRow P s
      → Kept (after_consume rt cfg d h r i moment (o, s))
  unfolding after_consume
  won_row h r x i moment none s e each = absurd (cc)
  won_row h r x i moment (some _) s e each = each

  -- The consume after the mint, whether it wins or loses.
  settled :
      (h succ at now : String) (r : RefreshTokenRecord) (i : IssuedRefresh) (moment : ℕ)
      (s : RefreshTokens)
      → EachRow P s
      → EachRow P (after_consume rt cfg d h r i moment (consume h succ at now s)).1
  unfolding after_consume after_failed_consume
  settled h succ at now r i moment s each = elim (consume-cases h succ at now s) [
    | inl same ↦ rw same (lost_row-EachRow h (get h s) moment s refl each)
    | inr (x, found, unspent, won) ↦
        won_row h r x i moment (consume h succ at now s).0 (consume h succ at now s).1 won (
          EachRow-consume P h succ at now x s found unspent
            (keep_spent h succ (or_text at now) x (each.at h x found) unspent) each)
  ]

  rotate_live-EachRow :
      (h : String) (r : RefreshTokenRecord) (ip user_agent : String) (moment : ℕ)
      (s : RefreshTokens)
      → P h r
      → r.revoked ≡ false
      → EachRow P s
      → EachRow P (rotate_live rt cfg d h r ip user_agent moment s).1
  unfolding rotate_live mint minted
  rotate_live-EachRow h r ip user_agent moment s p live each = settled h _ _ _ r _ moment _ (
      EachRow-put P (minted rt cfg d.token d.wall (successor_of rt cfg d r ip user_agent moment)) s
        each (keep_successor h r ip user_agent moment p live))

  rotate_row-EachRow :
      (h : String) (o : Option RefreshTokenRecord) (ip user_agent : String) (moment : ℕ)
      (s : RefreshTokens)
      → get h s ≡ o
      → EachRow P s
      → EachRow P (rotate_row rt cfg d h o ip user_agent moment s).1
  unfolding rotate_row
  rotate_row-EachRow h none ip user_agent moment s e each = each
  rotate_row-EachRow h (some r) ip user_agent moment s e each =
      if_rule Kept r.revoked _ _ (λ _. each)
        λ live.
          if_rule Kept (is_expired r.expires_at moment || past_absolute_cap rt cfg d.wall r moment)
            _ _ (λ _. EachRow-revoke_family P keep_revoke r.family_id s each)
            (λ _. rotate_live-EachRow h r ip user_agent moment s (each.at h r e) live each)

  pub rotate-EachRow :
      (presented ip user_agent : String) (moment : ℕ) (s : RefreshTokens)
      → EachRow P s
      → EachRow P (rotate rt cfg d presented ip user_agent moment s).1
  unfolding rotate
  rotate-EachRow presented ip user_agent moment s =
      rotate_row-EachRow (rt.sha256 presented) (get (rt.sha256 presented) s) ip user_agent moment s
        refl
