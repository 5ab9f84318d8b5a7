-- ===== src/Identity/Totp/Watermark.antt =====
-- The replay defence: the watermark of a factor only rises, and a step is accepted only above it.
use webbpulse_python.Base.{
  ℕ, ◌≤◌, ◌<◌, true, false, String, Option, none, some, List, [], ◌∷◌, ◌≡◌, eq_iff, eq_refl, arith,
  ◌∙◌, inl, inr, Option-cases, Result, ok, raised,
}
use webbpulse_python.Base.Assoc.{lookup, lookup-insert}
use webbpulse_python.Runtime.{Runtime}
use webbpulse_python.Identity.Totp.{
  TotpFactors, get, record_use, Crypto, step_of, burn, burn_matched, verify_totp,
}

-- The watermark of a user's factor, zero without one.
abbrev pub watermark : String → TotpFactors → ℕ
watermark u s = elim (get u s) [ none ↦ 0 | some f ↦ f.last_used_step ]

record_use-rises :
    (u v : String) (step : ℕ) (s : TotpFactors)
    → watermark u s ≤ watermark u (record_use v step s).1
unfolding get record_use
record_use-rises u v step s = elim (Option-cases (lookup v s)) [
  | inl missing ↦ ground (arith, missing)
  | inr (f, found) ↦
      ground (arith, found, eq_iff v u, lookup-insert v u (record f { last_used_step = step }) s)
]

record_use-steps :
    (u : String) (step : ℕ) (s : TotpFactors)
    → (record_use u step s).0 ≡ true
    → (watermark u s < step) × (watermark u (record_use u step s).1 ≡ step)
unfolding get record_use
record_use-steps u step s done = elim (Option-cases (lookup u s)) [
  | inl missing ↦ absurd (ground (arith, missing, done))
  | inr (f, found) ↦ (
    ground (arith, found, done),
    ground
        (arith, found, done, eq_refl u, lookup-insert u u (record f { last_used_step = step }) s),
  )
]

module _ (rt : Runtime) (crypto : Crypto) where
  burn-rises :
      (u v : String) (o : Option ℕ) (s : TotpFactors)
      → watermark u s ≤ watermark u (burn rt crypto v o s).1
  unfolding burn
  burn-rises u v none s = omega arith
  burn-rises u v (some step) s = record_use-rises u v step s

  burn_matched-rises :
      (u v : String) (x : Result (Option ℕ)) (s : TotpFactors)
      → watermark u s ≤ watermark u (burn_matched rt crypto v x s).1
  burn_matched-rises u v (raised error) s = omega arith
  burn_matched-rises u v (ok o) s = burn-rises u v o s

  verify_totp-rises :
      (u v code : String) (now : ℕ) (s : TotpFactors)
      → watermark u s ≤ watermark u (verify_totp rt crypto v code now s).1
  unfolding verify_totp
  verify_totp-rises u v code now s = burn_matched-rises u v (step_of rt crypto (get v s) code now) s

  burn_matched-steps :
      (u : String) (x : Result (Option ℕ)) (step : ℕ) (s : TotpFactors)
      → (burn_matched rt crypto u x s).0 ≡ ok true
      → x ≡ ok (some step)
      → (watermark u s < step) × (watermark u (burn_matched rt crypto u x s).1 ≡ step)
  unfolding burn
  burn_matched-steps u (raised error) step s accepts at = absurd (cc (at))
  burn_matched-steps u (ok none) step s accepts at = absurd (cc (at))
  burn_matched-steps u (ok (some k)) step s accepts at =
      let e : k ≡ step = cc (at) in
      let (above, after) = record_use-steps u k s (cc (accepts)) in
      (omega (arith, e, above), after ∙ e)

  -- A sign-in's second factor: the user, the code presented, and the clock's Unix seconds.
  pub record Presented : Type 0 where
    pub user_id : String
    pub code : String
    pub now : ℕ

  unfoldable pub verify_all : List Presented → TotpFactors → TotpFactors
  verify_all [] s = s
  verify_all (p ∷ rest) s = verify_all rest (verify_totp rt crypto p.user_id p.code p.now s).1

  verify_all-rises :
      (u : String) (ps : List Presented) (s : TotpFactors)
      → watermark u s ≤ watermark u (verify_all ps s)
  unfolding verify_all
  verify_all-rises u [] s = omega arith
  verify_all-rises u (p ∷ rest) s = omega (
    arith,
    verify_totp-rises u p.user_id p.code p.now s,
    verify_all-rises u rest (verify_totp rt crypto p.user_id p.code p.now s).1,
  )

  -- The step that an accepted code matched.
  abbrev pub Accepts : (u code : String) → ℕ → TotpFactors → ℕ → Type 0
  Accepts u code now s step =
      ((verify_totp rt crypto u code now s).0 ≡ ok true)
      × (step_of rt crypto (get u s) code now ≡ ok (some step))

  accepted :
      (u code : String) (now step : ℕ) (s : TotpFactors)
      → Accepts u code now s step
      → (watermark u s < step) × (watermark u (verify_totp rt crypto u code now s).1 ≡ step)
  unfolding verify_totp
  accepted u code now step s (accepts, at) =
      burn_matched-steps u (step_of rt crypto (get u s) code now) step s accepts at

  -- No step is accepted twice for a user: after an accepted code, and whatever codes are presented
  -- in between for any users, the next code that the user has accepted matches a later step.
  pub steps_increase :
      (u code code' : String) (now now' step step' : ℕ) (ps : List Presented) (s : TotpFactors)
      → Accepts u code now s step
      → Accepts u code' now' (verify_all ps (verify_totp rt crypto u code now s).1) step'
      → step < step'
  steps_increase u code code' now now' step step' ps s first second =
      let s₁ = (verify_totp rt crypto u code now s).1 in
      omega (
        arith,
        (accepted u code now step s first).1,
        verify_all-rises u ps s₁,
        (accepted u code' now' step' (verify_all ps s₁) second).0,
      )

  -- Of two requests that both matched one step before either wrote it, at most one is accepted: once
  -- a step has been offered to a factor, it is refused.
  pub burn_race :
      (u : String) (step : ℕ) (s : TotpFactors)
      → (burn rt crypto u (some step) (burn rt crypto u (some step) s).1).0 ≡ false
  unfolding burn record_use
  burn_race u step s = elim (Option-cases (lookup u s)) [
    | inl missing ↦ ground (arith, missing)
    | inr (f, found) ↦
        ground (arith, found, eq_refl u, lookup-insert u u (record f { last_used_step = step }) s)
  ]
