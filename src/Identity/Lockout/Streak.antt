-- ===== src/Identity/Lockout/Streak.antt =====
-- What `lockout_state` counts and what delay it sets.
use mathlib.Core.Path.{subst}
use native.Mathlib.Nat.{pow-suc}
use webbpulse_python.Base.{
  ℕ, zero, suc, ◌+◌, ◌-◌, ◌*◌, ◌^◌, min, ◌≤◌, ◌<◌, Bool, true, false, Option, none, some, List, [],
  ◌∷◌, ◌≡◌, arith, refl, ap, ◌∙◌, inl, inr, Option-cases, ltb, leb, length, if◌then◌else◌,
  Bool-cases,
}
use webbpulse_python.Runtime.{Runtime}
use webbpulse_python.Identity.Lockout.{
  LoginAttempt, AttemptOutcome, success, failure, locked, LockoutState, Policy, parsed, streak,
  first_seen, delay_of, delayed, lockout_state,
}

module _ (rt : Runtime) where
  -- The rows that the count reaches: up to the first that is unreadable, too old, or a success.
  abbrev reaches : ℕ → LoginAttempt → Bool
  reaches horizon a = elim (parsed rt a.attempted_at) [
    | none ↦ false
    | some at ↦
        if ltb at horizon
        then false
        else elim a.outcome [ success ↦ false | failure ↦ true | locked ↦ true ]
  ]

  abbrev reached : ℕ → List LoginAttempt → List LoginAttempt
  reached horizon [] = []
  reached horizon (a ∷ rest) =
      let more = reached horizon rest in if reaches horizon a then a ∷ more else []

  -- The moments of the failures among some rows.
  abbrev failure_moments : List LoginAttempt → List ℕ
  failure_moments [] = []
  failure_moments (a ∷ rest) = elim a.outcome [
    | success ↦ failure_moments rest
    | locked ↦ failure_moments rest
    | failure ↦ elim (parsed rt a.attempted_at) [
      | none ↦ failure_moments rest
      | some at ↦ at ∷ failure_moments rest
    ]
  ]

  -- The moments of the failures in a row, newest first: those since the last success, within the
  -- horizon, refused attempts left out.
  unfoldable pub failures_in_row : ℕ → List LoginAttempt → List ℕ
  failures_in_row horizon attempts = failure_moments (reached horizon attempts)

  abbrev pub newest_of : Option ℕ → List ℕ → Option ℕ
  newest_of newest [] = newest
  newest_of newest (at ∷ rest) = newest_of (first_seen rt newest at) rest

  abbrev Loop : ℕ → List LoginAttempt → Type 0
  Loop horizon attempts =
      (n : ℕ) (newest : Option ℕ)
      → streak rt horizon attempts n newest ≡ (
        n + length (failures_in_row horizon attempts),
        newest_of newest (failures_in_row horizon attempts),
      )

  same_pair : (n m : ℕ) (newest : Option ℕ) → n ≡ m → ◌≡◌ {A = ℕ × Option ℕ} (n, newest) (m, newest)
  same_pair n m newest e = ap (λ (k : ℕ). (k, newest)) e

  counted :
      (horizon : ℕ) (a : LoginAttempt) (rest : List LoginAttempt) (n : ℕ) (newest : Option ℕ)
      (at : ℕ)
      → parsed rt a.attempted_at ≡ some at
      → ltb at horizon ≡ false
      → (c : AttemptOutcome) → a.outcome ≡ c
      → Loop horizon rest
      → streak rt horizon (a ∷ rest) n newest ≡ (
        n + length (failures_in_row horizon (a ∷ rest)),
        newest_of newest (failures_in_row horizon (a ∷ rest)),
      )
  unfolding streak failures_in_row
  counted horizon a rest n newest at read recent success e ih =
      rw (streak, failures_in_row, failure_moments, reaches, read, recent, e)
        (same_pair n (n + 0) newest (omega arith))
  counted horizon a rest n newest at read recent locked e ih =
      rw (streak, failures_in_row, failure_moments, reaches, read, recent, e) (ih n newest)
  counted horizon a rest n newest at read recent failure e ih =
      rw (streak, failures_in_row, failure_moments, reaches, read, recent, e, read)
        (ih (n + 1) (first_seen rt newest at) ∙ same_pair _ _ _ (omega arith))

  -- The loop counts the failures in a row, and keeps the newest of them.
  streak_lem : (horizon : ℕ) (attempts : List LoginAttempt) → Loop horizon attempts
  unfolding streak failures_in_row
  streak_lem horizon [] n newest = same_pair n (n + 0) newest (omega arith)
  streak_lem horizon (a ∷ rest) n newest = elim (Option-cases (parsed rt a.attempted_at)) [
    | inl unread ↦
        rw (streak, failures_in_row, failure_moments, reaches, unread)
          (same_pair n (n + 0) newest (omega arith))
    | inr (at, read) ↦ elim (Bool-cases (ltb at horizon)) [
      | inl old ↦
          rw (streak, failures_in_row, failure_moments, reaches, read, old)
            (same_pair n (n + 0) newest (omega arith))
      | inr recent ↦
          counted horizon a rest n newest at read recent a.outcome refl (streak_lem horizon rest)
    ]
  ]

  abbrev pub newest_failure : List ℕ → Option ℕ
  newest_failure [] = none
  newest_failure (at ∷ rest) = some at

  -- A delay that is doubled a number of times.
  abbrev pub doubled : (delay times : ℕ) → ℕ
  doubled delay zero = delay
  doubled delay (suc n) = doubled delay n + doubled delay n

  doubled-power : (delay n : ℕ) → delay * (2 ^ n) ≡ doubled delay n
  doubled-power delay zero = omega arith
  doubled-power delay (suc n) =
      ap (λ p. delay * p) (pow-suc 2 n) ∙ doubles (2 ^ n) _ (doubled-power delay n)
    where
      doubles : (p q : ℕ) → delay * p ≡ q → delay * (p * 2) ≡ q + q
      doubles p q e = grind (arith, e)

  module _ (policy : Policy) where
    -- The delay that a number of failures calls for: the base delay, doubled for every failure past
    -- the threshold but no more than 32 times, and at most the greatest delay.
    abbrev pub due_delay : ℕ → ℕ
    due_delay failures =
        let uncapped = doubled policy.base_delay (min (failures - policy.threshold) 32) in
        if leb uncapped policy.max_delay then uncapped else policy.max_delay

    delay_of-due_delay : (failures : ℕ) → delay_of rt policy failures ≡ due_delay failures
    delay_of-due_delay failures =
        ground (arith, doubled-power policy.base_delay (min (failures - policy.threshold) 32))

    -- The lockout from the failures in a row alone: none below the threshold, and else up to the
    -- newest failure plus the delay that their number calls for.
    pub record Delays (fs : List ℕ) (moment : ℕ) (st : LockoutState) : Type 0 where
      pub counts : st.failures ≡ length fs
      pub below : length fs < policy.threshold → st.retry_at ≡ none
      pub locks :
          (newest : ℕ)
          → newest_failure fs ≡ some newest
          → policy.threshold ≤ length fs
          → st.retry_at ≡ (
              if leb (newest + due_delay (length fs)) moment
              then none
              else some (newest + due_delay (length fs)))

    newest_kept : (at : ℕ) (rest : List ℕ) → newest_of (some at) rest ≡ some at
    newest_kept at [] = refl
    newest_kept at (x ∷ rest) = newest_kept at rest

    newest_eq : (fs : List ℕ) → newest_of none fs ≡ newest_failure fs
    newest_eq [] = refl
    newest_eq (at ∷ rest) = newest_kept at rest

    zero_add : (n : ℕ) → 0 + n ≡ n
    zero_add n = omega arith

    delayed-Delays :
        (fs : List ℕ) (moment : ℕ) (o : Option ℕ)
        → newest_failure fs ≡ o
        → Delays fs moment (delayed rt policy moment (length fs, o))
    unfolding delayed
    delayed-Delays fs moment none e = record {
      counts = refl;
      below = λ _. refl;
      locks = λ newest e' _. absurd (cc (e, e'));
    }
    delayed-Delays fs moment (some newest) e = record {
      counts = ground arith;
      below = λ few. ground (arith, few);
      locks = λ newest' e' many.
          subst
            (λ delay.
              (delayed rt policy moment (length fs, some newest)).retry_at
              ≡ (if leb (newest' + delay) moment then none else some (newest' + delay)))
            (delay_of-due_delay (length fs)) (ground (arith, e, e', many));
    }

    -- The lockout state is what the failures in a row make it, however the attempts before and
    -- between them ended: they are counted, below the threshold there is no lockout, and from it on
    -- the lockout lasts until the newest failure plus the base delay, doubled for every failure past
    -- the threshold but no more than 32 times, and at most the greatest delay.
    pub lockout_state-Delays :
        (attempts : List LoginAttempt) (moment : ℕ)
        → Delays
            (failures_in_row (moment - policy.lookback) attempts)
            moment
            (lockout_state rt policy attempts moment)
    unfolding lockout_state
    lockout_state-Delays attempts moment =
        let fs = failures_in_row (moment - policy.lookback) attempts in
        rw
          (
            streak_lem (moment - policy.lookback) attempts 0 none,
            newest_eq fs,
            zero_add (length fs),
          )
          (delayed-Delays fs moment (newest_failure fs) refl)
