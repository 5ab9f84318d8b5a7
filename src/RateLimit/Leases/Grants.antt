-- ===== src/RateLimit/Leases/Grants.antt =====
-- What the answered claims of a minute grant together, whichever containers made them.
use mathlib.Core.Path.{subst}
use webbpulse_python.Base.{
  ℕ, ◌+◌, ◌-◌, ◌≤◌, min, Bool, String, Option, none, some, List, [], ◌∷◌, ◌≡◌, arith, refl, ap, ◌∙◌,
  inl, inr, Option-cases,
}
use webbpulse_python.RateLimit.Table.{Table, Item, or_value, or_zero}
use webbpulse_python.RateLimit.Tiers.{Quota}
use webbpulse_python.RateLimit.Leases.{minute_count, day_count, claim}
use webbpulse_python.RateLimit.Settle.{granted}
use webbpulse_python.RateLimit.Leases.Claims.{minute_used, Claimed, claim-Claimed}

-- One container's claim: the lease it asks for, the item's expiry, and which write it tries first.
pub record Ask : Type 0 where
  pub lease : ℕ
  pub expires : ℕ
  pub same_minute : Bool

abbrev pub asked : List Ask → ℕ
asked [] = 0
asked (a ∷ rest) = a.lease + asked rest

granted_minute : (q : Quota) (l u d : ℕ) → granted q l (u + l) (d + l) ≤ min l (q.per_minute - u)
unfolding granted
granted_minute q l u d = elim (Option-cases q.per_day) [
  | inl e ↦ ground (arith, e)
  | inr (cap, e) ↦ ground (arith, e)
]

granted_le : (q : Quota) (l u d : ℕ) → granted q l (u + l) (d + l) ≤ l
granted_le q l u d = omega (arith, granted_minute q l u d)

granted_day :
    (q : Quota) (l u d cap : ℕ) → q.per_day ≡ some cap → granted q l (u + l) (d + l) ≤ cap - d
unfolding granted
granted_day q l u d cap e = ground (arith, e)

granted_exact :
    (q : Quota) (l u d : ℕ)
    → q.per_day ≡ none
    → granted q l (u + l) (d + l) ≡ min l (q.per_minute - u)
unfolding granted
granted_exact q l u d e = ground (arith, e)

module _ (t : Table) (quota : Quota) (pk counter : String) (minute : ℕ) where
  open t use {State, item}

  -- What an answered claim grants, as `check_key` works it out from the answer.
  abbrev grant_of : ℕ → Item → ℕ
  grant_of lease answer =
      granted quota lease (or_value (answer (minute_count counter)) lease)
        (or_value (answer (day_count counter)) lease)

  abbrev plus : ℕ → Option (ℕ × State) → Option (ℕ × State)
  plus n none = none
  plus n (some (m, s)) = some (n + m, s)

  abbrev go_on : (State → Option (ℕ × State)) → ℕ → Option Item × State → Option (ℕ × State)
  go_on rest lease (none, s) = none
  go_on rest lease (some answer, s) = plus (grant_of lease answer) (rest s)

  -- The sum that claims in a row grant, or none as soon as one goes unanswered.
  unfoldable pub grants : List Ask → State → Option (ℕ × State)
  grants [] s = some (0, s)
  grants (a ∷ rest) s =
      go_on (grants rest) a.lease (claim t pk counter a.lease minute a.expires a.same_minute s)

  abbrev pub left_of_minute : State → ℕ
  left_of_minute s = quota.per_minute - minute_used t pk counter minute s

  abbrev pub used_of_day : State → ℕ
  used_of_day s = or_zero (item s pk (day_count counter))

  amount_eq :
      (m n : ℕ) (s s' : State) → ◌≡◌ {A = Option (ℕ × State)} (some (m, s)) (some (n, s')) → m ≡ n
  amount_eq m n s s' e = ap (λ (o : Option (ℕ × State)). elim o [ none ↦ 0 | some p ↦ p.0 ]) e

  state_eq :
      (m n k : ℕ) (s s' : State)
      → ◌≡◌ {A = Option (ℕ × State)} (some (m, s)) (some (n, s'))
      → ◌≡◌ {A = Option (ℕ × State)} (some (k, s)) (some (k, s'))
  state_eq m n k s s' e =
      ap (λ (o : Option (ℕ × State)). elim o [ none ↦ some (k, s) | some p ↦ some (k, p.1) ]) e

  -- The three facts about a run of claims, kept together for the induction.
  record Shared (asks : List Ask) (s : State) (n : ℕ) : Type 0 where
    minute_bound : n ≤ left_of_minute s
    day_bound : (cap : ℕ) → quota.per_day ≡ some cap → n ≤ cap - used_of_day s
    exact : quota.per_day ≡ none → n ≡ min (asked asks) (left_of_minute s)

  grant-Shared :
      (a : Ask) (rest : List Ask) (s s₁ : State) (answer : Item) (m : ℕ)
      → Claimed t pk counter a.lease minute s s₁ answer
      → Shared rest s₁ m
      → Shared (a ∷ rest) s (grant_of a.lease answer + m)
  grant-Shared a rest s s₁ answer m c h =
      let u = minute_used t pk counter minute s in
      let d = used_of_day s in
      let told : grant_of a.lease answer ≡ granted quota a.lease (u + a.lease) (d + a.lease) =
        ap
          (λ (x : Option ℕ).
            granted quota a.lease (or_value x a.lease)
              (or_value (answer (day_count counter)) a.lease))
          c.minute_told
        ∙ ap (λ (x : Option ℕ). granted quota a.lease (u + a.lease) (or_value x a.lease))
            c.day_told in
      let day : used_of_day s₁ ≡ used_of_day s + a.lease = c.day_kept in
      let less : (cap : ℕ)
          → quota.per_day ≡ some cap
          → granted quota a.lease (u + a.lease) (d + a.lease) ≤ cap - used_of_day s =
        λ cap e. granted_day quota a.lease u d cap e in
      record {
        minute_bound =
            omega (arith, told, granted_minute quota a.lease u d, h.minute_bound, c.minute_kept);
        day_bound = λ cap e.
            omega (arith, told, less cap e, granted_le quota a.lease u d, h.day_bound cap e, day);
        exact =
            λ e. omega (arith, told, granted_exact quota a.lease u d e, h.exact e, c.minute_kept);
      }

  plus-Shared :
      (a : Ask) (rest : List Ask) (s s₁ s' : State) (answer : Item) (n : ℕ) (r : Option (ℕ × State))
      → Claimed t pk counter a.lease minute s s₁ answer
      → ((m : ℕ) → r ≡ some (m, s') → Shared rest s₁ m)
      → plus (grant_of a.lease answer) r ≡ some (n, s')
      → Shared (a ∷ rest) s n
  plus-Shared a rest s s₁ s' answer n none c ih e = absurd (cc (e))
  plus-Shared a rest s s₁ s' answer n (some (m, s₂)) c ih e =
      subst (λ (k : ℕ). Shared (a ∷ rest) s k) (amount_eq _ _ _ _ e)
        (grant-Shared a rest s s₁ answer m c (ih m (state_eq _ _ _ _ _ e)))

  go_on-Shared :
      (a : Ask) (rest : List Ask) (s s' : State) (n : ℕ) (r : Option Item × State)
      → claim t pk counter a.lease minute a.expires a.same_minute s ≡ r
      → ((s₁ : State) (m : ℕ) → grants rest s₁ ≡ some (m, s') → Shared rest s₁ m)
      → go_on (grants rest) a.lease r ≡ some (n, s')
      → Shared (a ∷ rest) s n
  go_on-Shared a rest s s' n (none, s₁) e₁ ih e₂ = absurd (cc (e₂))
  go_on-Shared a rest s s' n (some answer, s₁) e₁ ih e₂ =
      plus-Shared a rest s s₁ s' answer n (grants rest s₁)
        (claim-Claimed t pk counter a.lease minute a.expires s s₁ answer a.same_minute e₁) (ih s₁)
        e₂

  grants-Shared :
      (asks : List Ask) (s s' : State) (n : ℕ) → grants asks s ≡ some (n, s') → Shared asks s n
  unfolding grants
  grants-Shared [] s s' n e =
      let zero_granted : 0 ≡ n = amount_eq _ _ _ _ e in
      record {
        minute_bound = omega (arith, zero_granted);
        day_bound = λ cap c. omega (arith, zero_granted);
        exact = λ c. omega (arith, zero_granted);
      }
  grants-Shared (a ∷ rest) s s' n e =
      go_on-Shared a rest s s' n _ refl (λ s₁ m. grants-Shared rest s₁ s' m) e

  -- However many containers claim within a minute, and in whatever order, the claims that are
  -- answered grant together no more than what the minute's quota has left, and no more than what
  -- the day's quota has left where there is one. Without a quota for the day they grant all that is
  -- asked, up to what the minute has left.
  pub grants_within_quota :
      (asks : List Ask) (s s' : State) (n : ℕ)
      → grants asks s ≡ some (n, s')
      → (n ≤ left_of_minute s)
        × ((cap : ℕ) → quota.per_day ≡ some cap → n ≤ cap - used_of_day s)
        × (quota.per_day ≡ none → n ≡ min (asked asks) (left_of_minute s))
  grants_within_quota asks s s' n e =
      let h = grants-Shared asks s s' n e in (h.minute_bound, h.day_bound, h.exact)
