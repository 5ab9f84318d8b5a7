-- ===== src/RateLimit/Leases/Claims.antt =====
-- What a claim does to the table, whichever of its two writes lands.
use mathlib.Core.Path.{fun_ext, subst}
use webbpulse_python.Base.{
  ℕ, zero, suc, ◌+◌, Bool, true, false, String, Option, none, some, List, ◌≡◌, ◌≢◌, ◌==◌, eq_iff,
  eq_refl, arith, inl, inr, ◌⊎◌, if◌then◌else◌, leb, suffixed, sym, ◌∙◌, ap, Bool-cases, refl,
}
use webbpulse_python.RateLimit.Table.{
  Table, Item, Reply, updated, condition_failed, fault, Clause, Condition, holds, written, or_zero,
}
use Prim.Native.Char.{code}
use webbpulse_python.RateLimit.Fixed.{ttl_attribute}
use webbpulse_python.RateLimit.Leases.{
  minute_count, stored_minute, day_count, count_path, rollover_path, attempt, next_attempt, claim,
}

suffixed_cancel : (s a b : String) → suffixed s a ≡ suffixed s b → a ≡ b
suffixed_cancel String.[] a b e = e
suffixed_cancel (String.◌∷◌ c s) a b e = suffixed_cancel s a b (cc)

-- Two attributes of one counter are different attributes.
suffixes_differ : (s a b : String) → a == b ≡ false → suffixed s a == suffixed s b ≡ false
suffixes_differ s a b differ = elim (Bool-cases (suffixed s a == suffixed s b)) [
  | inl same ↦ cc (differ, (eq_iff a b).1 (suffixed_cancel s a b ((eq_iff _ _).0 same)))
  | inr other ↦ other
]

-- The code of the last character.
last_of : ℕ → String → ℕ
last_of d String.[] = d
last_of d (String.◌∷◌ c s) = last_of (code c) s

last_of-suffixed :
    (t : String) (n : ℕ)
    → ((d : ℕ) → last_of d t ≡ n)
    → (s : String) (d : ℕ) → last_of d (suffixed s t) ≡ n
unfolding last_of
last_of-suffixed t n ends String.[] d = ends d
last_of-suffixed t n ends (String.◌∷◌ c s) d = last_of-suffixed t n ends s (code c)

-- The TTL attribute is no attribute of a counter.
ttl_differs :
    (s t : String) (n : ℕ)
    → ((d : ℕ) → last_of d t ≡ n)
    → n ≢ b't'
    → ttl_attribute == suffixed s t ≡ false
unfolding last_of
ttl_differs s t n ends other = elim (Bool-cases (ttl_attribute == suffixed s t)) [
  | inl same ↦ absurd (
      other (
        sym (last_of-suffixed t n ends s 0)
        ∙ sym (ap (last_of 0) ((eq_iff ttl_attribute (suffixed s t)).0 same))))
  | inr no_match ↦ no_match
]

-- The tests between attribute names that the writes of one counter make.
record Distinct (counter : String) : Type 0 where
  m_w : minute_count counter == stored_minute counter ≡ false
  m_d : minute_count counter == day_count counter ≡ false
  d_w : day_count counter == stored_minute counter ≡ false
  w_d : stored_minute counter == day_count counter ≡ false
  ttl_w : ttl_attribute == stored_minute counter ≡ false
  ttl_d : ttl_attribute == day_count counter ≡ false
  m_m : minute_count counter == minute_count counter ≡ true
  w_w : stored_minute counter == stored_minute counter ≡ true
  d_d : day_count counter == day_count counter ≡ true

distinct : (counter : String) → Distinct counter
unfolding last_of
distinct c = record {
  m_w = suffixes_differ c "_m" "_w" refl;
  m_d = suffixes_differ c "_m" "_d" refl;
  d_w = suffixes_differ c "_d" "_w" refl;
  w_d = suffixes_differ c "_w" "_d" refl;
  ttl_w = ttl_differs c "_w" b'w' (λ d. refl) (omega arith);
  ttl_d = ttl_differs c "_d" b'd' (λ d. refl) (omega arith);
  m_m = eq_refl (minute_count c);
  w_w = eq_refl (stored_minute c);
  d_d = eq_refl (day_count c);
}

abbrev Path' : Type 0
Path' = List Clause × Condition

module _ (t : Table) where
  open t use {State, item, update, update_done, update_refused}

  -- A write that answered: its condition held, and the item and the answer are as it wrote them.
  record Landed (pk : String) (p : Path') (s s' : State) (answer : Item) : Type 0 where
    held : holds p.1 (item s pk) ≡ true
    wrote : (b : String) → item s' pk b ≡ written p.0 (item s pk) b
    told : (b : String) → answer b ≡ written p.0 (item s pk) b

  landed :
      (pk : String) (p : Path') (s s' : State) (answer : Item)
      → update pk p.0 p.1 s ≡ (updated answer, s')
      → Landed pk p s s' answer
  landed pk p s s' answer e =
      let (held, wrote, told) = update_done pk p.0 p.1 s s' answer e in
      record { held = held; wrote = λ b. wrote pk b ∙ rw (eq_refl pk) refl; told = told }

  same_item :
      (pk : String) (p : Path') (s s' : State)
      → update pk p.0 p.1 s ≡ (condition_failed, s')
      → item s' pk ≡ item s pk
  same_item pk p s s' e = fun_ext (λ b. (update_refused pk p.0 p.1 s s' e).1 pk b)

  moved_Landed :
      (pk : String) (p : Path') (s s₁ s' : State) (answer : Item)
      → item s₁ pk ≡ item s pk
      → Landed pk p s₁ s' answer
      → Landed pk p s s' answer
  moved_Landed pk p s s₁ s' answer same l = record {
    held = subst (λ (i : Item). holds p.1 i ≡ true) same l.held;
    wrote = λ b. l.wrote b ∙ ap (λ (i : Item). written p.0 i b) same;
    told = λ b. l.told b ∙ ap (λ (i : Item). written p.0 i b) same;
  }

  answered :
      (a answer : Item) (s₁ s' : State)
      → ◌≡◌ {A = Option Item × State} (some a, s₁) (some answer, s')
      → ◌≡◌ {A = Reply × State} (updated a, s₁) (updated answer, s')
  answered a answer s₁ s' e =
      cc (ap (λ (x : Option Item × State). x.0) e, ap (λ (x : Option Item × State). x.1) e)

  retried :
      (pk : String) (p q : Path') (s s₁ s' : State) (answer : Item)
      → item s₁ pk ≡ item s pk
      → Landed pk q s₁ s' answer ⊎ Landed pk p s₁ s' answer
      → Landed pk p s s' answer ⊎ Landed pk q s s' answer
  retried pk p q s s₁ s' answer same (inl l) = inr (moved_Landed pk q s s₁ s' answer same l)
  retried pk p q s s₁ s' answer same (inr l) = inl (moved_Landed pk p s s₁ s' answer same l)

  -- One attempt, given what the attempts behind it land.
  next_attempt-Landed :
      (pk : String) (p q : Path') (s s' : State) (answer : Item)
      (retry : State → Option Item × State)
      → ((s₁ : State)
          → retry s₁ ≡ (some answer, s')
          → Landed pk q s₁ s' answer ⊎ Landed pk p s₁ s' answer)
      → (u : Reply × State) → update pk p.0 p.1 s ≡ u
      → next_attempt t retry u ≡ (some answer, s')
      → Landed pk p s s' answer ⊎ Landed pk q s s' answer
  unfolding next_attempt
  next_attempt-Landed pk p q s s' answer retry ih (updated a, s₁) e₁ e₂ =
      inl (landed pk p s s' answer (e₁ ∙ answered a answer s₁ s' e₂))
  next_attempt-Landed pk p q s s' answer retry ih (condition_failed, s₁) e₁ e₂ =
      retried pk p q s s₁ s' answer (same_item pk p s s₁ e₁) (ih s₁ e₂)
  next_attempt-Landed pk p q s s' answer retry ih (fault, s₁) e₁ e₂ =
      absurd (cc (ap (λ (x : Option Item × State). x.0) e₂))

  -- Attempts that answer landed one of the two writes, on the item as it was before them.
  attempt-Landed :
      (n : ℕ) (pk : String) (p q : Path') (s s' : State) (answer : Item)
      → attempt t n pk p q s ≡ (some answer, s')
      → Landed pk p s s' answer ⊎ Landed pk q s s' answer
  unfolding attempt
  attempt-Landed zero pk p q s s' answer e = absurd (cc (ap (λ (x : Option Item × State). x.0) e))
  attempt-Landed (suc n) pk p q s s' answer e =
      next_attempt-Landed pk p q s s' answer (attempt t n pk q p)
        (λ s₁. attempt-Landed n pk q p s₁ s' answer) (update pk p.0 p.1 s) refl e

  -- How far a counter has got in a minute: a count that belongs to an earlier minute is nothing.
  abbrev pub minute_used : (pk counter : String) → ℕ → State → ℕ
  minute_used pk counter minute s = elim (item s pk (stored_minute counter)) [
    | none ↦ 0
    | some w ↦ if leb minute w then or_zero (item s pk (minute_count counter)) else 0
  ]

  -- A claim that answers reports the minute's count with its lease added, and the day's likewise,
  -- and the table holds what it reports.
  pub record Claimed (pk counter : String) (lease minute : ℕ) (s s' : State) (answer : Item)
      : Type 0 where
    pub minute_told : answer (minute_count counter) ≡ some (minute_used pk counter minute s + lease)
    pub minute_kept : minute_used pk counter minute s' ≡ minute_used pk counter minute s + lease
    pub day_told :
        answer (day_count counter) ≡ some (or_zero (item s pk (day_count counter)) + lease)
    pub day_kept :
        or_zero (item s' pk (day_count counter)) ≡ or_zero (item s pk (day_count counter)) + lease

  module _ (pk counter : String) (lease minute expires : ℕ) (s s' : State) (answer : Item) where
    count_path-Claimed :
        Landed pk (count_path counter lease minute expires) s s' answer
        → Claimed pk counter lease minute s s' answer
    unfolding count_path
    count_path-Claimed l =
        let n = distinct counter in
        record {
          minute_told = ground (arith, l.held, l.told (minute_count counter), n.m_m);
          minute_kept = ground (
            arith,
            l.held,
            l.wrote (minute_count counter),
            l.wrote (stored_minute counter),
            n.m_m,
            n.m_w,
            n.d_w,
            n.ttl_w,
          );
          day_told = ground (arith, l.told (day_count counter), n.m_d, n.d_d);
          day_kept = ground (arith, l.wrote (day_count counter), n.m_d, n.d_d);
        }

    rollover_path-Claimed :
        Landed pk (rollover_path counter lease minute expires) s s' answer
        → Claimed pk counter lease minute s s' answer
    unfolding rollover_path
    rollover_path-Claimed l =
        let n = distinct counter in
        record {
          minute_told = ground (arith, l.held, l.told (minute_count counter), n.m_m);
          minute_kept = ground (
            arith,
            l.held,
            l.wrote (minute_count counter),
            l.wrote (stored_minute counter),
            n.m_m,
            n.m_w,
            n.w_w,
          );
          day_told = ground (arith, l.told (day_count counter), n.m_d, n.w_d, n.ttl_d, n.d_d);
          day_kept = ground (arith, l.wrote (day_count counter), n.m_d, n.w_d, n.ttl_d, n.d_d);
        }

    either :
        Landed pk (count_path counter lease minute expires) s s' answer
          ⊎ Landed pk (rollover_path counter lease minute expires) s s' answer
        → Claimed pk counter lease minute s s' answer
    either (inl l) = count_path-Claimed l
    either (inr l) = rollover_path-Claimed l

    other_order :
        Landed pk (rollover_path counter lease minute expires) s s' answer
          ⊎ Landed pk (count_path counter lease minute expires) s s' answer
        → Claimed pk counter lease minute s s' answer
    other_order (inl l) = rollover_path-Claimed l
    other_order (inr l) = count_path-Claimed l

    -- A claim that answers, in whatever order it tried its writes, has added its lease to the count
    -- of the minute and of the day, and answers with both sums.
    pub claim-Claimed :
        (same_minute : Bool)
        → claim t pk counter lease minute expires same_minute s ≡ (some answer, s')
        → Claimed pk counter lease minute s s' answer
    unfolding claim
    claim-Claimed true e = either (attempt-Landed 3 pk _ _ s s' answer e)
    claim-Claimed false e = other_order (attempt-Landed 3 pk _ _ s s' answer e)
