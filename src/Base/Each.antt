-- ===== src/Base/Each.antt =====
-- A property of every value of an association list, and the writes that keep it.
use mathlib.Core.Path.{subst}
use webbpulse_python.Base.Tests.{Bool-cases, if_rule}
use Prim.Native.Nat.{ℕ}
use Prim.Native.String.{String}
use mathlib.Core.Path.{◌≡◌}
use mathlib.Core.Bool.{Bool, true}
use mathlib.Core.Logic.{inl, inr}
use mathlib.Core.Option.{some}
use mathlib.Core.List.{[], ◌∷◌}
use text.Mathlib.Text.{◌==◌}
use webbpulse_python.Base.Lists.{All}
use webbpulse_python.Base.Assoc.{Assoc, lookup, insert, remove, values, remove_where}

module _ {V : Type 0} (P : V → Type 0) where
  abbrev pub Each : Assoc V → Type 0
  Each d = All P (values d)

  pub Each-lookup : (k : String) (d : Assoc V) (v : V) → Each d → lookup k d ≡ some v → P v
  unfolding lookup
  Each-lookup k [] v each e = absurd (cc (e))
  Each-lookup k ((j, w) ∷ d) v each e = elim (Bool-cases (j == k)) [
    | inl same ↦ subst P (found same) each.0
    | inr other ↦ Each-lookup k d v each.1 (rw other at e)
  ]
    where
      found : j == k ≡ true → w ≡ v
      found same = cc (rw same at e)

  pub Each-insert : (k : String) (v : V) (d : Assoc V) → Each d → P v → Each (insert k v d)
  unfolding insert
  Each-insert k v [] each p = (p, tt)
  Each-insert k v ((j, w) ∷ d) each p =
      if_rule Each (j == k) _ _ (λ _. (p, each.1)) (λ _. (each.0, Each-insert k v d each.1 p))

  pub Each-remove : (k : String) (d : Assoc V) → Each d → Each (remove k d)
  unfolding remove
  Each-remove k [] each = tt
  Each-remove k ((j, w) ∷ d) each =
      if_rule Each (j == k) _ _ (λ _. Each-remove k d each.1)
        (λ _. (each.0, Each-remove k d each.1))

  pub Each-remove_where : (hit : V → Bool) (d : Assoc V) → Each d → Each (remove_where hit d).1
  unfolding remove_where
  Each-remove_where hit [] each = tt
  Each-remove_where hit ((j, w) ∷ d) each =
      if_rule (λ (x : ℕ × Assoc V). Each x.1) (hit w) _ _ (λ _. Each-remove_where hit d each.1)
        (λ _. (each.0, Each-remove_where hit d each.1))
