-- ===== src/Identity/Totp/Codes.antt =====
-- Which step `verify_code` matches.
use webbpulse_python.Base.{
  ℕ, ◌+◌, ◌≤◌, ◌<◌, true, false, String, Option, none, some, ◌≡◌, ◌==◌, Result, ok, raised,
}
use webbpulse_python.Runtime.{Runtime}
use webbpulse_python.Identity.Totp.{Crypto, generate_code, is_ascii, type_error}

module _ (rt : Runtime) (crypto : Crypto) (seed : String) where
  -- A step above the watermark whose code is the presented one.
  abbrev pub Fits : (presented : String) (last_used_step : ℕ) → ℕ → Type 0
  Fits presented last_used_step step =
      (last_used_step < step) × (generate_code rt crypto seed step == presented ≡ true)

  -- The answer over the candidates from one step on: the first that fits, if any does, and the error
  -- of a comparison with a text beyond ASCII, if one is made.
  pub record FirstFit (presented : String) (last_used_step count from : ℕ)
      (answer : Result (Option ℕ)) : Type 0 where
    pub fits :
        (step : ℕ)
        → answer ≡ ok (some step)
        → (from ≤ step) × ((step < from + count) × Fits presented last_used_step step)
    pub first :
        (step earlier : ℕ)
        → answer ≡ ok (some step)
        → from ≤ earlier
        → earlier < step
        → last_used_step < earlier
        → generate_code rt crypto seed earlier == presented ≡ false
    pub missed :
        answer ≡ ok none
        → (step : ℕ) → from ≤ step
        → step < from + count
        → last_used_step < step
        → generate_code rt crypto seed step == presented ≡ false
    pub raises :
        is_ascii presented ≡ false
        → (step : ℕ) → from ≤ step
        → step < from + count
        → last_used_step < step
        → answer ≡ raised type_error
    pub answers : is_ascii presented ≡ true → (o : Option ℕ) × (answer ≡ ok o)
