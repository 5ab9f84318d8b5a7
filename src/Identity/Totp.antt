-- ===== src/Identity/Totp.antt =====
-- src/webbpulse/identity/totp.py, `InMemoryTotpFactorStore` of src/webbpulse/identity/storage.py and
-- `_verify_totp` of src/webbpulse/identity/mfa.py.
pub mod Codes
pub mod Scan
pub mod Watermark
use Prim.Native.Char.{code}
use webbpulse_python.Base.{
  ℕ, zero, suc, ◌+◌, ◌-◌, ◌*◌, ◌/◌, ◌%◌, ◌^◌, Bool, true, false, not, ◌&&◌, ◌||◌, String, Option,
  none, some, List, [], ◌∷◌, ◌==◌, leb, ltb, nat_eq, if◌then◌else◌, or_text, is_some, suffixed,
  Result, ok, raised,
}
use webbpulse_python.Base.Assoc.{Assoc, lookup, insert, remove}
use webbpulse_python.Runtime.{Runtime}

pub record TotpFactorRecord : Type 0 where
  pub user_id : String
  pub secret_ciphertext : String
  pub secret_nonce : String
  pub wrapped_data_key : String
  pub created_at : String
  pub activated_at : String
  pub last_used_step : ℕ
  pub secret_scheme : String

abbrev pub is_active : TotpFactorRecord → Bool
is_active f = not (f.activated_at == "")

abbrev pub TotpFactors : Type 0
TotpFactors = Assoc TotpFactorRecord

unfoldable pub get : String → TotpFactors → Option TotpFactorRecord
get user_id s = lookup user_id s

unfoldable pub put : TotpFactorRecord → TotpFactors → TotpFactors
put f s = insert f.user_id f s

-- `now` is the reading of `now_iso()` that stands in for an `activated_at` left out.
unfoldable pub activate :
    (user_id : String) (step : ℕ) (now : String) → TotpFactors → Bool × TotpFactors
activate user_id step now s = elim (lookup user_id s) [
  | none ↦ (false, s)
  | some existing ↦
      if is_active existing
      then (false, s)
      else (true, insert user_id (record existing { activated_at = now; last_used_step = step }) s)
]

unfoldable pub record_use : (user_id : String) (step : ℕ) → TotpFactors → Bool × TotpFactors
record_use user_id step s = elim (lookup user_id s) [
  | none ↦ (false, s)
  | some existing ↦
      if leb step existing.last_used_step
      then (false, s)
      else (true, insert user_id (record existing { last_used_step = step }) s)
]

unfoldable pub delete : String → TotpFactors → TotpFactors
delete user_id s = remove user_id s

-- What the service takes from the cryptography it calls: the HMAC-SHA1 of a step under the key that
-- a seed encodes, as its bytes, and the opening of a sealed seed, `none` where it is refused.
pub record Crypto : Type 0 where
  pub hmac_sha1 : String → ℕ → List ℕ
  pub open_seed : TotpFactorRecord → Option String
  -- `str.isdigit`
  pub isdigit : String → Bool

abbrev pub time_step_seconds : ℕ
time_step_seconds = 30

abbrev pub code_digits : ℕ
code_digits = 6

abbrev pub verification_window : ℕ
verification_window = 1

-- `current_step`, of Unix seconds
unfoldable pub current_step : ℕ → ℕ
current_step now = now / time_step_seconds

-- `digest[i]`, in range
abbrev byte_at : ℕ → List ℕ → ℕ
byte_at i [] = 0
byte_at zero (b ∷ bs) = b
byte_at (suc i) (b ∷ bs) = byte_at i bs

abbrev last_byte : List ℕ → ℕ
last_byte [] = 0
last_byte (b ∷ []) = b
last_byte (b ∷ c ∷ bs) = last_byte (c ∷ bs)

-- `struct.unpack(">I", digest[offset : offset + 4])[0] & 0x7FFFFFFF`
unfoldable pub truncated : List ℕ → ℕ
truncated digest =
    let offset = last_byte digest % 16 in
    (byte_at offset digest * 16777216
      + byte_at (offset + 1) digest * 65536
      + byte_at (offset + 2) digest * 256
      + byte_at (offset + 3) digest)
    % 2147483648

abbrev pub text_length : String → ℕ
text_length String.[] = 0
text_length (String.◌∷◌ c s) = suc (text_length s)

-- `text.zfill(width)` of a text without a sign, by the zeros that are wanting.
abbrev zeros : ℕ → String → String
zeros zero s = s
zeros (suc n) s = suffixed "0" (zeros n s)

abbrev zfill : ℕ → String → String
zfill width s = zeros (width - text_length s) s

-- `text.replace(c, "")` of one character, by its code
abbrev without : ℕ → String → String
without c String.[] = String.[]
without c (String.◌∷◌ d s) =
    let rest = without c s in if nat_eq (code d) c then rest else String.◌∷◌ d rest

-- `str.isascii`
abbrev pub is_ascii : String → Bool
is_ascii String.[] = true
is_ascii (String.◌∷◌ c s) = ltb (code c) 128 && is_ascii s

abbrev pub type_error : String
type_error = "TypeError"

-- `hmac.compare_digest` of an expected code, which is of decimal digits, and a presented text: it
-- takes ASCII alone.
abbrev pub compare_digest : (expected presented : String) → Result Bool
compare_digest expected presented =
    if is_ascii presented then ok (expected == presented) else raised type_error

module _ (rt : Runtime) (crypto : Crypto) where
  unfoldable pub generate_code : String → ℕ → String
  unfolding truncated
  generate_code seed step =
      zfill code_digits (rt.decimal (truncated (crypto.hmac_sha1 seed step) % 10 ^ code_digits))

  unfoldable pub normalise_code : String → String
  normalise_code code = without b'-' (without b' ' (rt.strip code))

  -- The body of the loop of `verify_code`, at a candidate.
  unfoldable pub try_step :
      (seed presented : String) (last_used_step candidate : ℕ) → Option ℕ → Result (Option ℕ)
  try_step seed presented last_used_step candidate matched =
      if leb candidate last_used_step
      then ok matched
      else elim (compare_digest (generate_code seed candidate) presented) [
        | raised error ↦ raised error
        | ok same ↦ ok (if same && not (is_some matched) then some candidate else matched)
      ]

  -- The loop of `verify_code` over a number of candidates from the first one on.
  unfoldable pub scan_steps :
      (seed presented : String) (last_used_step : ℕ) (count candidate : ℕ)
      → Option ℕ
      → Result (Option ℕ)
  unfolding try_step
  scan_steps seed presented last_used_step zero candidate matched = ok matched
  scan_steps seed presented last_used_step (suc n) candidate matched =
      elim (try_step seed presented last_used_step candidate matched) [
        | raised error ↦ raised error
        | ok next ↦ scan_steps seed presented last_used_step n (candidate + 1) next
      ]

  -- The steps below zero that the range starts with when the clock is at its first steps are never
  -- above the watermark, so the candidates start at zero there.
  unfoldable pub verify_code :
      (seed code : String) (last_used_step now window : ℕ) → Result (Option ℕ)
  unfolding scan_steps normalise_code
  verify_code seed code last_used_step now window =
      let presented = normalise_code code in
      let now_step = current_step now in
      if not (nat_eq (text_length presented) code_digits) || not (crypto.isdigit presented)
      then ok none
      else scan_steps seed presented last_used_step (now_step + window + 1 - (now_step - window))
          (now_step - window) none

  -- The step that a code matches for a factor, `ok none` where `_verify_totp` refuses before it
  -- writes.
  abbrev pub step_of : Option TotpFactorRecord → (code : String) (now : ℕ) → Result (Option ℕ)
  step_of none code now = ok none
  step_of (some f) code now = if not (is_active f) then ok none else elim (crypto.open_seed f) [
    | none ↦ ok none
    | some seed ↦ verify_code seed code f.last_used_step now verification_window
  ]

  unfoldable pub burn : (user_id : String) → Option ℕ → TotpFactors → Bool × TotpFactors
  unfolding record_use
  burn user_id none s = (false, s)
  burn user_id (some step) s = record_use user_id step s

  abbrev pub burn_matched :
      (user_id : String) → Result (Option ℕ) → TotpFactors → Result Bool × TotpFactors
  burn_matched user_id (raised error) s = (raised error, s)
  burn_matched user_id (ok o) s = (ok (burn user_id o s).0, (burn user_id o s).1)

  -- `_verify_totp`: whether it accepts; `ok false` is the exception `MfaRejected`, and an error of
  -- `verify_code` passes through.
  unfoldable pub verify_totp :
      (user_id code : String) (now : ℕ) → TotpFactors → Result Bool × TotpFactors
  unfolding verify_code burn
  verify_totp user_id code now s = burn_matched user_id (step_of (get user_id s) code now) s
