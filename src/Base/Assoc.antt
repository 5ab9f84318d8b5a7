-- ===== src/Base/Assoc.antt =====
-- A Python dict with string keys, in insertion order: an assignment to a key that is there
-- replaces its value in place, and `del` keeps the order of the rest.
use webbpulse_python.Base.Tests.{if◌then◌else◌}
use Prim.Native.Nat.{ℕ, ◌+◌}
use Prim.Native.String.{String}
use mathlib.Core.Path.{◌≡◌, refl}
use mathlib.Core.Bool.{Bool, true, false}
use mathlib.Core.Logic.{◌⊎◌, inl, inr}
use mathlib.Core.Option.{Option, none, some}
use mathlib.Core.List.{List, [], ◌∷◌}
use native.Mathlib.Omega.{arith}
use text.Mathlib.Text.{◌==◌}
use text.Mathlib.TextEquality.{eq_iff}

abbrev pub Assoc {ℓ} : Type ℓ → Type ℓ
Assoc V = List (String × V)

abbrev pub map_option {ℓ κ} : {A : Type ℓ} {B : Type κ} → (A → B) → Option A → Option B
map_option f none = none
map_option f (some a) = some (f a)

module _ {ℓ} {V : Type ℓ} where
  -- `d.get(k)`
  unfoldable pub lookup : String → Assoc V → Option V
  lookup k [] = none
  lookup k ((j, v) ∷ d) = if j == k then some v else lookup k d

  -- `d[k] = v`
  unfoldable pub insert : String → V → Assoc V → Assoc V
  insert k v [] = (k, v) ∷ []
  insert k v ((j, w) ∷ d) = if j == k then (j, v) ∷ d else (j, w) ∷ insert k v d

  -- `d.pop(k, None)`
  unfoldable pub remove : String → Assoc V → Assoc V
  remove k [] = []
  remove k ((j, w) ∷ d) = let rest = remove k d in if j == k then rest else (j, w) ∷ rest

  abbrev pub values : Assoc V → List V
  values [] = []
  values ((_, v) ∷ d) = v ∷ values d

  -- A loop over a copy of `items()` that replaces the values that pass a test, and counts them.
  unfoldable pub sweep : (V → Bool) → (V → V) → Assoc V → ℕ × Assoc V
  sweep hit change [] = (0, [])
  sweep hit change ((j, w) ∷ d) =
      let rest = sweep hit change d in
      if hit w then (rest.0 + 1, (j, change w) ∷ rest.1) else (rest.0, (j, w) ∷ rest.1)

  -- A loop that deletes the keys whose values pass a test, and counts them.
  unfoldable pub remove_where : (V → Bool) → Assoc V → ℕ × Assoc V
  remove_where hit [] = (0, [])
  remove_where hit ((j, w) ∷ d) =
      let rest = remove_where hit d in
      if hit w then (rest.0 + 1, rest.1) else (rest.0, (j, w) ∷ rest.1)

  pub lookup-insert :
      (k j : String) (v : V) (d : Assoc V)
      → lookup j (insert k v d) ≡ (if k == j then some v else lookup j d)
  unfolding lookup insert
  lookup-insert k j v [] = refl
  lookup-insert k j v ((i, w) ∷ d) =
      ground (arith, eq_iff k j, eq_iff i k, eq_iff i j, lookup-insert k j v d)

  pub lookup-remove :
      (k j : String) (d : Assoc V) → lookup j (remove k d) ≡ (if k == j then none else lookup j d)
  unfolding lookup remove
  lookup-remove k j [] = ground arith
  lookup-remove k j ((i, w) ∷ d) =
      ground (arith, eq_iff k j, eq_iff i k, eq_iff i j, lookup-remove k j d)

  pub lookup-sweep :
      (hit : V → Bool) (change : V → V) (j : String) (d : Assoc V)
      → lookup j (sweep hit change d).1
        ≡ map_option (λ v. if hit v then change v else v) (lookup j d)
  unfolding lookup sweep
  lookup-sweep hit change j [] = refl
  lookup-sweep hit change j ((i, w) ∷ d) = ground (arith, lookup-sweep hit change j d)

-- Where an update answers a value, it is the new value at the key, or the old one elsewhere.
pub if-some {ℓ} :
    {A : Type ℓ} (b : Bool) (x r : A) (o : Option A)
    → (if b then some x else o) ≡ some r
    → ((b ≡ true) × (x ≡ r)) ⊎ ((b ≡ false) × (o ≡ some r))
if-some true x r o e = inl (refl, cc)
if-some false x r o e = inr (refl, e)

pub map_option-some {ℓ κ} :
    {A : Type ℓ} {B : Type κ} (f : A → B) (o : Option A) (b : B)
    → map_option f o ≡ some b
    → (a : A) × (o ≡ some a) × (f a ≡ b)
map_option-some f none b e = absurd (cc)
map_option-some f (some a) b e = (a, refl, cc)
