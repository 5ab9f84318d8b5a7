-- ===== src/Identity/Lockout/Recent.antt =====
-- What the newest rows of a key make of its lockout.
use mathlib.Core.Path.{subst}
use webbpulse_python.Base.{
  ℕ, zero, suc, ◌+◌, ◌-◌, ◌≤◌, true, String, none, List, [], ◌∷◌, ◌++◌, map, ◌≡◌, ◌==◌, eq_refl,
  arith, refl, ap, ◌∙◌, inl, inr, Option-cases, Bool-cases, ltb, length, All, if_true,
}
use webbpulse_python.Base.Assoc.{lookup, lookup-insert}
use webbpulse_python.Runtime.{Runtime}
use webbpulse_python.Identity.Lockout.{
  LoginAttempt, success, locked, LockoutState, Policy, parsed, streak, delayed, lockout_state,
  LoginAttempts, Row, rows_of, record_attempt, newer, insert_row, newest_first, take, recent,
}

abbrev rows_at : String → LoginAttempts → List Row
rows_at k s = rows_of (lookup k s.items)

-- The attempt sorts before every row that its key has.
abbrev pub IsNewest : LoginAttempt → LoginAttempts → Type 0
IsNewest a s = All (λ x. newer (s.sequence + 1, a) x ≡ true) (rows_at a.identity_key s)

newest_first-append :
    (r : Row) (rows : List Row)
    → All (λ x. newer r x ≡ true) rows
    → newest_first (rows ++ r ∷ []) ≡ r ∷ newest_first rows
newest_first-append r [] h = refl
newest_first-append r (x ∷ rows) h =
    ap (λ (l : List Row). insert_row x l) (newest_first-append r rows h.1)
    ∙ if_true (newer r x) _ _ h.0

rows_at-record :
    (a : LoginAttempt) (s : LoginAttempts)
    → rows_at a.identity_key (record_attempt a s)
      ≡ rows_at a.identity_key s ++ (s.sequence + 1, a) ∷ []
unfolding record_attempt
rows_at-record a s = ap rows_of (
    lookup-insert a.identity_key a.identity_key _ s.items
    ∙ if_true (a.identity_key == a.identity_key) _ _ (eq_refl a.identity_key))

-- The rows of a key, newest first, once a newest attempt is recorded.
ordered-record :
    (a : LoginAttempt) (s : LoginAttempts)
    → IsNewest a s
    → newest_first (rows_at a.identity_key (record_attempt a s))
      ≡ (s.sequence + 1, a) ∷ newest_first (rows_at a.identity_key s)
ordered-record a s newest =
    ap newest_first (rows_at-record a s) ∙ newest_first-append (s.sequence + 1, a) _ newest

abbrev pub unlocked : LockoutState
unlocked = record { failures = 0; retry_at = none }

module _ (rt : Runtime) (policy : Policy) where
  streak-success :
      (a : LoginAttempt) (rest : List LoginAttempt) (horizon : ℕ)
      → a.outcome ≡ success
      → streak rt horizon (a ∷ rest) 0 none ≡ (0, none)
  unfolding streak
  streak-success a rest horizon e = elim (Option-cases (parsed rt a.attempted_at)) [
    | inl unread ↦ rw (streak, unread) refl
    | inr (at, read) ↦ elim (Bool-cases (ltb at horizon)) [
      | inl old ↦ rw (streak, read, old) refl
      | inr young ↦ rw (streak, read, young, e) refl
    ]
  ]

  streak-locked :
      (attempts : List LoginAttempt) (horizon : ℕ)
      → All (λ a. a.outcome ≡ locked) attempts
      → streak rt horizon attempts 0 none ≡ (0, none)
  unfolding streak
  streak-locked [] horizon all = refl
  streak-locked (a ∷ rest) horizon all = elim (Option-cases (parsed rt a.attempted_at)) [
    | inl unread ↦ rw (streak, unread) refl
    | inr (at, read) ↦ elim (Bool-cases (ltb at horizon)) [
      | inl old ↦ rw (streak, read, old) refl
      | inr young ↦ rw (streak, read, young, all.0) (streak-locked rest horizon all.1)
    ]
  ]

  -- A success that is recorded as the newest attempt of a key lifts its lockout, whatever the
  -- attempts before it and the moment of asking.
  pub success_unlocks :
      (a : LoginAttempt) (s : LoginAttempts) (limit moment : ℕ)
      → a.outcome ≡ success
      → IsNewest a s
      → 1 ≤ limit
      → lockout_state rt policy (recent limit a.identity_key (record_attempt a s)) moment ≡ unlocked
  unfolding lockout_state delayed recent
  success_unlocks a s zero moment e newest many = absurd (omega (arith, many))
  success_unlocks a s (suc limit) moment e newest many =
      rw (ordered-record a s newest, streak-success a _ (moment - policy.lookback) e) refl

  -- Refused attempts on one key, each recorded as the newest at its time.
  unfoldable pub record_all : List LoginAttempt → LoginAttempts → LoginAttempts
  record_all [] s = s
  record_all (a ∷ rest) s = record_all rest (record_attempt a s)

  abbrev pub Refusals : String → List LoginAttempt → LoginAttempts → Type 0
  Refusals k [] s = Unit
  Refusals k (a ∷ rest) s =
      (a.identity_key ≡ k)
      × ((a.outcome ≡ locked) × (IsNewest a s × Refusals k rest (record_attempt a s)))

  -- The newest rows of a key, as many as the number, are all refusals.
  abbrev Front : ℕ → String → LoginAttempts → Type 0
  Front n k s = All (λ r. r.1.outcome ≡ locked) (take n (newest_first (rows_at k s)))

  Front-record :
      (n : ℕ) (k : String) (a : LoginAttempt) (s : LoginAttempts)
      → a.identity_key ≡ k
      → a.outcome ≡ locked
      → IsNewest a s
      → Front n k s
      → Front (suc n) k (record_attempt a s)
  Front-record n k a s same e newest front =
      subst (λ (j : String). Front n j s → Front (suc n) j (record_attempt a s)) same
        (λ f. rw (ordered-record a s newest) (e, f)) front

  Front-record_all :
      (n : ℕ) (k : String) (attempts : List LoginAttempt) (s : LoginAttempts)
      → Refusals k attempts s
      → Front n k s
      → Front (length attempts + n) k (record_all attempts s)
  unfolding record_all
  Front-record_all n k [] s refusals front = subst (λ (m : ℕ). Front m k s) (omega arith) front
  Front-record_all n k (a ∷ rest) s refusals front =
      let next = record_attempt a s in
      subst (λ (m : ℕ). Front m k (record_all rest next)) (omega arith)
        (Front-record_all (suc n) k rest next refusals.1.1.1
          (Front-record n k a s refusals.0 refusals.1.0 refusals.1.1.0 front))

  All-take :
      (m n : ℕ) (rows : List Row)
      → m ≤ n
      → All (λ r. r.1.outcome ≡ locked) (take n rows)
      → All (λ a. a.outcome ≡ locked) (map (λ (r : Row). r.1) (take m rows))
  All-take zero n rows le all = tt
  All-take (suc m) zero rows le all = absurd (omega (arith, le))
  All-take (suc m) (suc n) [] le all = tt
  All-take (suc m) (suc n) (r ∷ rows) le all = (all.0, All-take m n rows (omega (arith, le)) all.1)

  -- Refused attempts lift a lockout: once as many of them as `recent` reads are recorded as the
  -- newest of a key, the key counts no failures and is not locked, whatever the failures before them
  -- and however long the delay had still to run.
  pub lockout_washed_out :
      (k : String) (attempts : List LoginAttempt) (s : LoginAttempts) (limit moment : ℕ)
      → Refusals k attempts s
      → limit ≤ length attempts
      → lockout_state rt policy (recent limit k (record_all attempts s)) moment ≡ unlocked
  unfolding lockout_state delayed recent
  lockout_washed_out k attempts s limit moment refusals many =
      rw
        (streak-locked _ (moment - policy.lookback) (
          All-take limit (length attempts + 0) _ (omega (arith, many))
            (Front-record_all 0 k attempts s refusals tt)))
        refl
