-- ===== src/RateLimit/Choice.antt =====
-- What the limiters choose by: the class of a request, the plan of a subject.
use webbpulse_python.Base.{
  true, false, String, none, some, List, [], ◌∷◌, ◌++◌, ◌≡◌, refl, ap, ◌∙◌, sym, arith, inl, inr,
  ◌⊎◌, Bool-cases, Option-cases, All, if_true, if_false,
}
use webbpulse_python.Base.Assoc.{lookup}
use webbpulse_python.Runtime.{Runtime}
use webbpulse_python.RateLimit.Classes.{LimitClass, matches, classify}
use webbpulse_python.RateLimit.Tiers.{TieredLimits, PlanLimits, tiers_valid, limits_for}

-- The classes up to the first one that matches.
pub record First (rt : Runtime) (method path : String) (cs : List LimitClass) (c : LimitClass)
    : Type 0 where
  pub before : List LimitClass
  pub after : List LimitClass
  pub split : cs ≡ before ++ (c ∷ after)
  pub passed : All (λ b. matches rt b method path ≡ false) before
  pub taken : matches rt c method path ≡ true

further :
    (rt : Runtime) (method path : String) (b c : LimitClass) (cs : List LimitClass)
    → matches rt b method path ≡ false
    → First rt method path cs c
    → First rt method path (b ∷ cs) c
further rt method path b c cs misses f = record {
  before = b ∷ f.before;
  after = f.after;
  split = ap (λ (x : List LimitClass). b ∷ x) f.split;
  passed = (misses, f.passed);
  taken = f.taken;
}

-- `classify` returns the first class that matches the request, in the order of the list, and raises
-- only if none of them does.
pub classify-First :
    (rt : Runtime) (method path : String) (cs : List LimitClass)
    → ((c : LimitClass) → classify rt method path cs ≡ some c → First rt method path cs c)
      × (classify rt method path cs ≡ none → All (λ b. matches rt b method path ≡ false) cs)
unfolding classify
classify-First rt method path [] = (λ c e. absurd (cc (e)), λ e. tt)
classify-First rt method path (b ∷ cs) =
    let (found, missed) = classify-First rt method path cs in
    elim (Bool-cases (matches rt b method path)) [
      | inl fits ↦ (
        λ c e.
            let same : some b ≡ some c = sym (if_true _ _ _ fits) ∙ e in
            record {
              before = [];
              after = cs;
              split = cc (same);
              passed = tt;
              taken = cc (same, fits);
            },
        λ e. absurd (cc (sym (if_true _ (some b) (classify rt method path cs) fits) ∙ e)),
      )
      | inr misses ↦ (
        λ c e. further rt method path b c cs misses (found c (sym (if_false _ _ _ misses) ∙ e)),
        λ e. (misses, missed (sym (if_false _ _ _ misses) ∙ e)),
      )
    ]

-- A tier table that passes its validation has limits for every subject: those of the subject's plan
-- where the table knows it, and else those of the default plan, under the name of the plan applied.
pub limits_for-total :
    (t : TieredLimits) (plan : String)
    → tiers_valid t ≡ true
    → ((p : PlanLimits) × ((lookup plan t.plans ≡ some p) × (limits_for t plan ≡ some (plan, p))))
      ⊎ ((lookup plan t.plans ≡ none)
          × ((p : PlanLimits) × ((lookup t.default_plan t.plans ≡ some p)
                × (limits_for t plan ≡ some (t.default_plan, p)))))
unfolding tiers_valid limits_for
limits_for-total t plan valid = elim (Option-cases (lookup plan t.plans)) [
  | inr (p, e) ↦ inl (p, (e, rw (e) refl))
  | inl e ↦ elim (Option-cases (lookup t.default_plan t.plans)) [
    | inl none_found ↦ absurd (ground (arith, none_found, valid))
    | inr (p, e') ↦ inr (e, (p, (e', ground (arith, e, e'))))
  ]
]
