-- ===== src/Identity/Totp/Scan.antt =====
-- The rounds of the loop of `verify_code`.
use webbpulse_python.Base.{
  ℕ, zero, suc, ◌+◌, Bool, true, false, not, ◌&&◌, String, Option, some, ◌≡◌, ◌==◌, refl, ap, inl,
  inr, Bool-cases, leb, ◌∙◌, if_true, is_some, if◌then◌else◌, Result, ok, raised,
}
use webbpulse_python.Runtime.{Runtime}
use webbpulse_python.Identity.Totp.{
  Crypto, generate_code, try_step, scan_steps, is_ascii, type_error,
}

module _ (rt : Runtime) (crypto : Crypto) (seed : String) where
  abbrev pub scan : (presented : String) (last count from : ℕ) → Option ℕ → Result (Option ℕ)
  scan presented last count from o = scan_steps rt crypto seed presented last count from o

  pub try_step-skips :
      (presented : String) (last from : ℕ) (o : Option ℕ)
      → leb from last ≡ true
      → try_step rt crypto seed presented last from o ≡ ok o
  unfolding try_step
  try_step-skips presented last from o old = if_true (leb from last) _ _ old

  pub try_step-raises :
      (presented : String) (last from : ℕ) (o : Option ℕ)
      → leb from last ≡ false
      → is_ascii presented ≡ false
      → try_step rt crypto seed presented last from o ≡ raised type_error
  unfolding try_step
  try_step-raises presented last from o young foreign = rw (young, foreign) refl

  pub try_step-compares :
      (presented : String) (last from : ℕ) (o : Option ℕ) (same : Bool)
      → leb from last ≡ false
      → is_ascii presented ≡ true
      → generate_code rt crypto seed from == presented ≡ same
      → try_step rt crypto seed presented last from o
        ≡ ok (if same && not (is_some o) then some from else o)
  unfolding try_step
  try_step-compares presented last from o same young plain e = rw (young, plain, e) refl

  -- What the loop does behind the body at a candidate.
  abbrev continued : (presented : String) (last n from : ℕ) → Result (Option ℕ) → Result (Option ℕ)
  continued presented last n from (raised error) = raised error
  continued presented last n from (ok next) = scan presented last n (from + 1) next

  continued_lem :
      (presented : String) (last n from : ℕ) (o : Option ℕ)
      → scan presented last (suc n) from o
        ≡ continued presented last n from (try_step rt crypto seed presented last from o)
  unfolding scan_steps
  continued_lem presented last n from o = refl

  pub scan-next :
      (presented : String) (last n from : ℕ) (o next : Option ℕ)
      → try_step rt crypto seed presented last from o ≡ ok next
      → scan presented last (suc n) from o ≡ scan presented last n (from + 1) next
  scan-next presented last n from o next e =
      continued_lem presented last n from o ∙ ap (continued presented last n from) e

  pub scan-raised :
      (presented : String) (last n from : ℕ) (o : Option ℕ)
      → try_step rt crypto seed presented last from o ≡ raised type_error
      → scan presented last (suc n) from o ≡ raised type_error
  scan-raised presented last n from o e =
      continued_lem presented last n from o ∙ ap (continued presented last n from) e

  try_step-keeps :
      (presented : String) (last from k : ℕ)
      → is_ascii presented ≡ true
      → try_step rt crypto seed presented last from (some k) ≡ ok (some k)
  try_step-keeps presented last from k plain = elim (Bool-cases (leb from last)) [
    | inl old ↦ try_step-skips presented last from (some k) old
    | inr young ↦ elim (Bool-cases (generate_code rt crypto seed from == presented)) [
      | inl same ↦ try_step-compares presented last from (some k) true young plain same
      | inr other ↦ try_step-compares presented last from (some k) false young plain other
    ]
  ]

  pub scan-matched :
      (presented : String) (last count from k : ℕ)
      → is_ascii presented ≡ true
      → scan presented last count from (some k) ≡ ok (some k)
  unfolding scan_steps
  scan-matched presented last zero from k plain = refl
  scan-matched presented last (suc n) from k plain =
      scan-next presented last n from (some k) (some k) (try_step-keeps presented last from k plain)
      ∙ scan-matched presented last n (from + 1) k plain
