-- ===== src/Identity/Sessions/Revocation.antt =====
-- What a revocation closes stays closed: no later request issues a token of the family.
use mathlib.Core.Path.{subst}
use webbpulse_python.Base.{
  ℕ, true, ◌||◌, String, Option, none, some, List, ◌≡◌, ◌≢◌, eq_iff, arith, inl, inr, All, All-map,
  if_rule, refl, sym, ◌∙◌,
}
use webbpulse_python.Base.Assoc.{map_option-some}
use webbpulse_python.Runtime.{Runtime}
use webbpulse_python.Identity.RefreshTokens.{
  RefreshTokenRecord, RefreshTokens, get, consume, revoke_family,
}
use webbpulse_python.Identity.RefreshTokens.Laws.{get-revoke_family, consume-cases, revoked_in}
use webbpulse_python.Identity.RefreshTokens.Rows.{EachRow, EachRow-put}
use webbpulse_python.Identity.Sessions.Defs.{
  Settings, IssuedRefresh, RotationResult, first_generation, minted, mint, is_expired,
  past_absolute_cap,
}
use webbpulse_python.Identity.Sessions.Rotate.{
  Draws, successor_of, replay_of, replay, within_grace, grace_or_reuse, lost_row,
  after_failed_consume, after_consume, rotate_live, rotate_row, rotate,
}
use webbpulse_python.Identity.Sessions.Manage.{revoke_row, revoke_presented}
use webbpulse_python.Identity.Sessions.Requests.{
  Request, signs_in, refreshes, IsStable, MintsGood, run, run-EachRow,
}

-- A row of the family is revoked.
abbrev pub IsClosedIn : String → String → RefreshTokenRecord → Type 0
IsClosedIn f h r = r.family_id ≡ f → r.revoked ≡ true

-- The request starts no family of that id.
abbrev pub StartsOther : String → Request → Type 0
StartsOther f (signs_in q) = q.family_id ≢ f
StartsOther f _ = Unit

pub revoke_family-IsClosedIn :
    (f : String) (s : RefreshTokens) → EachRow (IsClosedIn f) (revoke_family f s).1
revoke_family-IsClosedIn f s = record {
  at = λ h r e same.
      let (x, old, eq) =
        map_option-some (revoked_in f) (get h s) r (sym (get-revoke_family f h s) ∙ e) in
      ground (arith, eq, eq_iff x.family_id f);
}

module _ (rt : Runtime) (cfg : Settings) (f : String) where
  IsClosedIn-stable : IsStable rt cfg (IsClosedIn f)
  IsClosedIn-stable = record {
    on_revoke = λ h r p same. refl;
    on_spend = λ h succ at r p unspent. p;
    on_step_up = λ h t r p. p;
  }

  StartsOther-MintsGood : (q : Request) → StartsOther f q → MintsGood rt cfg (IsClosedIn f) q
  unfolding minted first_generation successor_of replay_of
  StartsOther-MintsGood (signs_in q) other = λ same. absurd (other same)
  StartsOther-MintsGood (refreshes q) other = (
    λ h r ip ua m p live same. absurd (cc (p same)),
    λ h h' r r' m p p' live same. absurd (cc (p same)),
  )
  StartsOther-MintsGood _ other = tt

  -- The family of an issued token is the one that the result was made for.
  ap-family : {i j : IssuedRefresh} → some i ≡ some j → i.family_id ≡ j.family_id
  ap-family e = cc

  -- A result issues no token of the family.
  abbrev IssuesNone : RotationResult × RefreshTokens → Type 0
  IssuesNone x = (i : IssuedRefresh) → x.0.issued ≡ some i → i.family_id ≢ f

  module _ (d : Draws) where
    replay-IssuesNone :
        (r : RefreshTokenRecord) (o : Option RefreshTokenRecord) (m : ℕ) (s : RefreshTokens)
        → r.family_id ≢ f
        → IssuesNone (replay rt cfg d r o m s)
    unfolding replay mint replay_of
    replay-IssuesNone r none m s other = λ i e. absurd (cc)
    replay-IssuesNone r (some x) m s other = λ i e same. other (ap-family e ∙ same)

    lost_row-IssuesNone :
        (h : String) (o : Option RefreshTokenRecord) (m : ℕ) (s : RefreshTokens)
        → get h s ≡ o
        → EachRow (IsClosedIn f) s
        → IssuesNone (lost_row rt cfg d o m s)
    unfolding lost_row grace_or_reuse
    lost_row-IssuesNone h none m s e each = λ i e. absurd (cc)
    lost_row-IssuesNone h (some r) m s e each =
        if_rule IssuesNone r.revoked _ _ (λ _ i e. absurd (cc))
          λ live.
            if_rule IssuesNone (within_grace rt cfg d r m) _ _
              (λ _.
                replay-IssuesNone r (get r.successor_hash s) m s (λ same. cc (each.at h r e same)))
              (λ _ i e. absurd (cc))

    won-IssuesNone :
        (h : String) (r x : RefreshTokenRecord) (i : IssuedRefresh) (m : ℕ)
        (o : Option RefreshTokenRecord) (s : RefreshTokens)
        → o ≡ some x
        → i.family_id ≢ f
        → IssuesNone (after_consume rt cfg d h r i m (o, s))
    unfolding after_consume
    won-IssuesNone h r x i m none s e other = absurd (cc)
    won-IssuesNone h r x i m (some _) s e other = λ j e' same. other (ap-family e' ∙ same)

    after_consume-IssuesNone :
        (h succ at now : String) (r : RefreshTokenRecord) (i : IssuedRefresh) (m : ℕ)
        (s : RefreshTokens)
        → i.family_id ≢ f
        → EachRow (IsClosedIn f) s
        → IssuesNone (after_consume rt cfg d h r i m (consume h succ at now s))
    unfolding after_consume after_failed_consume
    after_consume-IssuesNone h succ at now r i m s other each =
        elim (consume-cases h succ at now s) [
          | inl same ↦ rw same (lost_row-IssuesNone h (get h s) m s refl each)
          | inr (x, found, unspent, won) ↦
              won-IssuesNone h r x i m (consume h succ at now s).0 (consume h succ at now s).1 won
                other
        ]

    rotate_row-IssuesNone :
        (h : String) (o : Option RefreshTokenRecord) (ip ua : String) (m : ℕ) (s : RefreshTokens)
        → get h s ≡ o
        → EachRow (IsClosedIn f) s
        → IssuesNone (rotate_row rt cfg d h o ip ua m s)
    unfolding rotate_row rotate_live mint minted successor_of
    rotate_row-IssuesNone h none ip ua m s e each = λ i e'. absurd (cc)
    rotate_row-IssuesNone h (some r) ip ua m s e each =
        if_rule IssuesNone r.revoked _ _ (λ _ i e'. absurd (cc))
          λ live.
            if_rule IssuesNone (is_expired r.expires_at m || past_absolute_cap rt cfg d.wall r m) _
              _ (λ _ i e'. absurd (cc))
              (λ _.
                after_consume-IssuesNone h _ _ _ r _ m _ (λ same. cc (each.at h r e same))
                  (EachRow-put (IsClosedIn f)
                    (minted rt cfg d.token d.wall (successor_of rt cfg d r ip ua m)) s each
                    (λ same. cc (each.at h r e same))))

    -- While every row of a family is revoked, no presented token is exchanged for one of the family.
    pub rotate-IssuesNone :
        (presented ip ua : String) (m : ℕ) (s : RefreshTokens)
        → EachRow (IsClosedIn f) s
        → (i : IssuedRefresh) → (rotate rt cfg d presented ip ua m s).0.issued ≡ some i
        → i.family_id ≢ f
    unfolding rotate
    rotate-IssuesNone presented ip ua m s =
        rotate_row-IssuesNone (rt.sha256 presented) _ ip ua m s refl

  pub run-IsClosedIn :
      (qs : List Request) (s : RefreshTokens)
      → All (StartsOther f) qs
      → EachRow (IsClosedIn f) s
      → EachRow (IsClosedIn f) (run rt cfg qs s)
  run-IsClosedIn qs s others =
      run-EachRow rt cfg (IsClosedIn f) IsClosedIn-stable qs s
        (All-map StartsOther-MintsGood qs others)

module _ (rt : Runtime) (cfg : Settings) where
  same_family : {x r : RefreshTokenRecord} → some x ≡ some r → x.family_id ≡ r.family_id
  same_family e = cc

  revoke_row-IsClosedIn :
      (o : Option RefreshTokenRecord) (r : RefreshTokenRecord) (s : RefreshTokens)
      → o ≡ some r
      → EachRow (IsClosedIn r.family_id) (revoke_row o s).1
  unfolding revoke_row
  revoke_row-IsClosedIn none r s e = absurd (cc)
  revoke_row-IsClosedIn (some x) r s e =
      subst (λ k. EachRow (IsClosedIn k) (revoke_family x.family_id s).1) (same_family e)
        (revoke_family-IsClosedIn x.family_id s)

  -- After a logout, and after any requests that start no family of the same id, no presented token
  -- is exchanged for a token of the family that was logged out.
  pub logout_is_final :
      (d : Draws) (presented presented' ip ua : String) (m : ℕ) (r : RefreshTokenRecord)
      (qs : List Request) (s : RefreshTokens) (i : IssuedRefresh)
      → get (rt.sha256 presented) s ≡ some r
      → All (StartsOther r.family_id) qs
      → (rotate rt cfg d presented' ip ua m
          (run rt cfg qs (revoke_presented rt presented s).1)).0.issued
        ≡ some i
      → i.family_id ≢ r.family_id
  unfolding revoke_presented
  logout_is_final d presented presented' ip ua m r qs s i found others =
      rotate-IssuesNone rt cfg r.family_id d presented' ip ua m _
        (run-IsClosedIn rt cfg r.family_id qs _ others (revoke_row-IsClosedIn _ r s found)) i
