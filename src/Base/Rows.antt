-- ===== src/Base/Rows.antt =====
-- A property of every row that a lookup finds, with its key, and the writes that keep it.
use mathlib.Core.Path.{subst}
use webbpulse_python.Base.Tests.{Bool-cases}
use Prim.Native.String.{String}
use mathlib.Core.Path.{◌≡◌}
use mathlib.Core.Logic.{inl, inr}
use mathlib.Core.Option.{some}
use text.Mathlib.Text.{◌==◌}
use text.Mathlib.TextEquality.{eq_iff}
use webbpulse_python.Base.Assoc.{
  Assoc, lookup, insert, remove, lookup-insert, lookup-remove, if-some,
}

module _ {V : Type 0} where
  -- Every row that a read finds has the property of its key.
  abbrev pub Rows : (String → V → Type 0) → Assoc V → Type 0
  Rows R s = (k : String) (v : V) → lookup k s ≡ some v → R k v

  pub Rows-insert :
      (R : String → V → Type 0) (k : String) (v : V) (s : Assoc V)
      → R k v
      → Rows R s
      → Rows R (insert k v s)
  Rows-insert R k v s r rows j w e =
      elim (if-some (k == j) v w (lookup j s) (rw (lookup-insert k j v s) at e)) [
        | inl (same, is) ↦ subst (λ x. R x w) ((eq_iff k j).0 same) (subst (R k) is r)
        | inr (other, found) ↦ rows j w found
      ]

  pub Rows-remove :
      (R : String → V → Type 0) (k : String) (s : Assoc V) → Rows R s → Rows R (remove k s)
  Rows-remove R k s rows j w e = elim (Bool-cases (k == j)) [
    | inl same ↦ absurd (cc (rw (lookup-remove k j s, same) at e))
    | inr other ↦ rows j w (rw (lookup-remove k j s, other) at e)
  ]
