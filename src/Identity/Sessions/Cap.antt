-- ===== src/Identity/Sessions/Cap.antt =====
-- No token outlives its family: however often a session is refreshed, it ends at the absolute cap.
use webbpulse_python.Base.{
  ℕ, ◌+◌, ◌*◌, ◌/◌, ◌≤◌, String, none, some, List, ◌≡◌, ◌≢◌, arith, All, All-map, if_rule, if_true,
  or-true, ap, refl, le→leb,
}
use webbpulse_python.Runtime.{Runtime, IsoLaws, parse, parse-iso, microseconds}
use webbpulse_python.Identity.RefreshTokens.{RefreshTokenRecord, RefreshTokens, get}
use webbpulse_python.Identity.RefreshTokens.Rows.{EachRow}
use webbpulse_python.Identity.Sessions.Defs.{
  Settings, Generation, first_generation, minted, expiry, is_expired, family_started_at,
  RotationResult,
}
use webbpulse_python.Identity.Sessions.Rotate.{Draws, successor_of, replay_of, rotate_row, rotate}
use webbpulse_python.Identity.Sessions.Requests.{
  SignIn, Request, signs_in, refreshes, IsStable, MintsGood, after, run, after-EachRow, run-EachRow,
}
use webbpulse_python.Identity.Sessions.Revocation.{StartsOther}

module _ (rt : Runtime) (cfg : Settings) (laws : IsoLaws rt) (f : String) (deadline : ℕ) where
  -- A row of the family began early enough for the cap to fall before the deadline, and expires by
  -- the deadline.
  record Began (r : RefreshTokenRecord) : Type 0 where
    started : ℕ
    parses : parse rt r.family_started_at ≡ some started
    early : started + cfg.refresh_absolute_ttl ≤ deadline
    expires : r.expires_at * microseconds ≤ deadline

  abbrev IsCapped : String → RefreshTokenRecord → Type 0
  IsCapped h r = r.family_id ≡ f → Began r

  IsCapped-stable : IsStable rt cfg IsCapped
  IsCapped-stable = record {
    on_revoke = λ h r p same.
        let b = p same in
        record { started = b.started; parses = b.parses; early = b.early; expires = b.expires };
    on_spend = λ h succ at r p unspent same.
        let b = p same in
        record { started = b.started; parses = b.parses; early = b.early; expires = b.expires };
    on_step_up = λ h t r p same.
        let b = p same in
        record { started = b.started; parses = b.parses; early = b.early; expires = b.expires };
  }

  minted-Began :
      (token : String) (wall : ℕ) (g : Generation)
      → g.family_started_at + cfg.refresh_absolute_ttl ≤ deadline
      → Began (minted rt cfg token wall g)
  unfolding minted expiry
  minted-Began token wall g early = record {
    started = g.family_started_at / microseconds * microseconds;
    parses = parse-iso rt laws g.family_started_at;
    early = omega arith;
    expires = omega arith;
  }

  family_started_at-Began :
      (wall : ℕ) (r : RefreshTokenRecord) (b : Began r) → family_started_at rt wall r ≡ b.started
  unfolding family_started_at
  family_started_at-Began wall r b = rw (b.parses, family_started_at) refl

  carried :
      (token : String) (wall : ℕ) (g : Generation) (r : RefreshTokenRecord)
      → g.family_started_at ≡ family_started_at rt wall r
      → Began r
      → Began (minted rt cfg token wall g)
  carried token wall g r same b =
      minted-Began token wall g (omega (arith, same, family_started_at-Began wall r b, b.early))

  StartsOther-MintsCapped : (q : Request) → StartsOther f q → MintsGood rt cfg IsCapped q
  unfolding minted first_generation successor_of replay_of
  StartsOther-MintsCapped (signs_in q) other = λ same. absurd (other same)
  StartsOther-MintsCapped (refreshes q) other = (
    λ h r ip ua m p live same. carried q.draws.token q.draws.wall _ r refl (p same),
    λ h h' r r' m p p' live same. carried q.draws.replay_token q.draws.wall _ r refl (p same),
  )
  StartsOther-MintsCapped _ other = tt

  sign_in-MintsCapped :
      (q : SignIn)
      → q.moment + cfg.refresh_absolute_ttl ≤ deadline
      → MintsGood rt cfg IsCapped (signs_in q)
  unfolding first_generation
  sign_in-MintsCapped q early = λ same. minted-Began q.token q.wall _ early

  -- From the deadline on a row of the family has expired.
  late_row :
      (d : Draws) (h : String) (r : RefreshTokenRecord) (ip ua : String) (m : ℕ) (s : RefreshTokens)
      → Began r
      → deadline ≤ m
      → (rotate_row rt cfg d h (some r) ip ua m s).0.issued ≡ none
  unfolding rotate_row is_expired
  late_row d h r ip ua m s b late =
      if_rule (λ (x : RotationResult × RefreshTokens). x.0.issued ≡ none) r.revoked _ _ (λ _. refl)
        λ _.
          ap (λ (x : RotationResult × RefreshTokens). x.0.issued)
            (if_true _ _ _ (or-true _ _ (le→leb r.expires_at (m / microseconds) (omega arith))))

module _ (rt : Runtime) (cfg : Settings) (laws : IsoLaws rt) where
  -- Where no row of a family stands in the store before its sign-in: once the sign-in is as old as
  -- the absolute cap, no refresh token of the family is exchanged for another, after any requests in
  -- between that start no family of the same id.
  pub session_ends :
      (q : SignIn) (qs : List Request) (s : RefreshTokens) (d : Draws) (presented ip ua : String)
      (m : ℕ) (r : RefreshTokenRecord)
      → EachRow (λ h x. x.family_id ≢ q.family_id) s
      → All (StartsOther q.family_id) qs
      → get (rt.sha256 presented) (run rt cfg qs (after rt cfg (signs_in q) s)) ≡ some r
      → r.family_id ≡ q.family_id
      → q.moment + cfg.refresh_absolute_ttl ≤ m
      → (rotate rt cfg d presented ip ua m (run rt cfg qs (after rt cfg (signs_in q) s))).0.issued
        ≡ none
  unfolding rotate
  session_ends q qs s d presented ip ua m r new others found same late =
      let deadline = q.moment + cfg.refresh_absolute_ttl in
      let capped =
        run-EachRow rt cfg (IsCapped rt cfg laws q.family_id deadline)
          (IsCapped-stable rt cfg laws q.family_id deadline) qs (after rt cfg (signs_in q) s)
          (All-map (StartsOther-MintsCapped rt cfg laws q.family_id deadline) qs others)
          (after-EachRow rt cfg (IsCapped rt cfg laws q.family_id deadline)
            (IsCapped-stable rt cfg laws q.family_id deadline) (signs_in q) s
            (sign_in-MintsCapped rt cfg laws q.family_id deadline q (omega arith))
            (record { at = λ h x e same'. absurd (new.at h x e same') })) in
      rw found (
        late_row rt cfg laws q.family_id deadline d (rt.sha256 presented) r ip ua m _
          (capped.at (rt.sha256 presented) r found same) late)
