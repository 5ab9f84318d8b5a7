-- ===== src/RateLimit/Window.antt =====
-- A clock window of `RateLimiter.check`, over the checks that fall into it.
use mathlib.Core.Path.{subst}
use webbpulse_python.Base.{
  ℕ, suc, ◌+◌, ◌-◌, min, Bool, true, false, String, Option, none, some, List, [], ◌∷◌, ◌≡◌, arith,
  refl, ap, ◌∙◌, sym, eq_refl, if◌then◌else◌, leb, length, All,
}
use webbpulse_python.Runtime.{Runtime}
use webbpulse_python.RateLimit.Table.{
  Table, Reply, updated, condition_failed, fault, or_value, or_zero, always,
}
use webbpulse_python.RateLimit.Decision.{RateLimitDecision, floor_to, ceil_until}
use webbpulse_python.RateLimit.Fixed.{
  RateLimiter, key, check_clock, clock_decision, counted, failed_open, count_clauses,
  ttl_grace_seconds,
}

module _ (rt : Runtime) (t : Table) (l : RateLimiter) (limit window_seconds : ℕ)
    (identity : String) where
  open t use {State, item, update, update_done}

  -- The count of a window in the table.
  abbrev pub window_count : ℕ → State → ℕ
  window_count window_start s =
      or_zero (item s (key rt l identity (some window_start)) l.count_attribute)

  -- One check, by the reply to its update: it is counted, or it is let through uncounted.
  data Outcome (window_start : ℕ) (s s' : State) (d : RateLimitDecision) : Type 0 where
    by_count :
        d.failed_open ≡ false
        → d.allowed ≡ leb (window_count window_start s + 1) limit
        → d.remaining ≡ limit - (window_count window_start s + 1)
        → window_count window_start s' ≡ window_count window_start s + 1
        → Outcome window_start s s' d
    uncounted : d.failed_open ≡ true → d.allowed ≡ true → Outcome window_start s s' d

  reply-Outcome :
      (window_start expires reset : ℕ) (s s' : State) (r : Reply)
      → update
          (key rt l identity (some window_start))
          (count_clauses l limit window_seconds expires)
          always
          s
        ≡ (r, s')
      → Outcome window_start s s' (clock_decision l limit window_seconds reset r)
  unfolding clock_decision counted failed_open
  reply-Outcome w expires reset s s' (updated a) e =
      let k = key rt l identity (some w) in
      let (_, wrote, told) =
        update_done k (count_clauses l limit window_seconds expires) always s s' a e in
      let same = eq_refl l.count_attribute in
      let answer : a l.count_attribute ≡ some (window_count w s + 1) =
        told l.count_attribute ∙ rw (same) refl in
      let after : window_count w s' ≡ window_count w s + 1 =
        ap or_zero (wrote k l.count_attribute) ∙ rw (eq_refl k, same) refl in
      by_count refl (ap (λ (x : Option ℕ). leb (or_value x 1) limit) answer)
        (ap (λ (x : Option ℕ). limit - or_value x 1) answer) after
  reply-Outcome w expires reset s s' condition_failed e = uncounted refl refl
  reply-Outcome w expires reset s s' fault e = uncounted refl refl

  abbrev one_if : Bool → ℕ
  one_if true = 1
  one_if false = 0

  abbrev plus : ℕ → Option ℕ → Option ℕ
  plus n none = none
  plus n (some m) = some (n + m)

  abbrev tallied : (State → Option ℕ) → RateLimitDecision × State → Option ℕ
  tallied rest (d, s) =
      let n = plus (one_if d.allowed) (rest s) in if d.failed_open then none else n

  -- How many of the checks at these moments are allowed, or none as soon as one fails open.
  unfoldable pub allowed_in : List ℕ → State → Option ℕ
  allowed_in [] s = some 0
  allowed_in (now ∷ nows) s =
      tallied (allowed_in nows) (check_clock l limit window_seconds rt t identity now s)

  -- Whether all the moments fall into one window.
  abbrev pub Within : ℕ → List ℕ → Type 0
  Within w nows = All (λ now. floor_to window_seconds now ≡ w) nows

  plus-some : (k n : ℕ) (r : Option ℕ) → plus k r ≡ some n → (m : ℕ) × (r ≡ some m) × (n ≡ k + m)
  plus-some k n none e = absurd (cc (e))
  plus-some k n (some m) e = (m, refl, sym (ap (λ (o : Option ℕ). or_zero o) e))

  tallied-step :
      (w : ℕ) (nows : List ℕ) (n : ℕ) (s s' : State) (d : RateLimitDecision)
      → Outcome w s s' d
      → ((m : ℕ) → allowed_in nows s' ≡ some m → m ≡ min (length nows) (limit - window_count w s'))
      → tallied (allowed_in nows) (d, s') ≡ some n
      → n ≡ min (suc (length nows)) (limit - window_count w s)
  tallied-step w nows n s s' d (by_count shut allowed remaining after) ih e =
      let (m, e', sum) =
        plus-some (one_if d.allowed) n (allowed_in nows s') (sym (rw (shut) refl) ∙ e) in
      ground (arith, sum, allowed, ih m e', after)
  tallied-step w nows n s s' d (uncounted unread allowed) ih e = absurd (ground (arith, unread, e))

  -- A check, by the start of its window.
  abbrev counted_check : ℕ → ℕ → State → RateLimitDecision × State
  counted_check w now s =
      let (reply, s') =
        update (key rt l identity (some w))
          (count_clauses l limit window_seconds (w + window_seconds + ttl_grace_seconds)) always
          s in
      (clock_decision l limit window_seconds (ceil_until (w + window_seconds) now) reply, s')

  check-Outcome :
      (w now : ℕ) (s : State)
      → floor_to window_seconds now ≡ w
      → let (d, s') = check_clock l limit window_seconds rt t identity now s in Outcome w s s' d
  unfolding check_clock
  check-Outcome w now s at =
      subst (λ (v : ℕ). let (d, s') = counted_check v now s in Outcome w s s' d) (sym at)
        (reply-Outcome w (w + window_seconds + ttl_grace_seconds)
          (ceil_until (w + window_seconds) now) s _ _ refl)

  -- Of the checks in one window that reach the table, exactly as many are allowed as the window's
  -- limit has left, or all of them.
  pub window_allows :
      (w : ℕ) (nows : List ℕ) (n : ℕ) (s : State)
      → Within w nows
      → allowed_in nows s ≡ some n
      → n ≡ min (length nows) (limit - window_count w s)
  unfolding allowed_in
  window_allows w [] n s inside e = omega (arith, ap (λ (o : Option ℕ). or_zero o) e)
  window_allows w (now ∷ nows) n s inside e =
      let r = check_clock l limit window_seconds rt t identity now s in
      tallied-step w nows n s r.1 r.0 (check-Outcome w now s inside.0)
        (λ m. window_allows w nows m r.1 inside.1) e
