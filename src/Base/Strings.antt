-- ===== src/Base/Strings.antt =====
-- The text operations that the source uses: `in`, `startswith`, slices of a known prefix, and the
-- order of texts, which is by code point.
use Prim.Native.Nat.{ℕ, zero, suc, Ordering}
use Prim.Native.String.append
use Prim.Native.String.{String, compare, ◌++◌}
use text.Mathlib.TextPositions.{starts_with-append}
use mathlib.Core.Path.{◌≡◌, refl, ap, ◌∙◌, subst}
use mathlib.Core.Bool.{Bool, true, false, ◌||◌, ◌&&◌}
use mathlib.Core.List.{List, [], ◌∷◌}
use text.Mathlib.Text.{starts_with, ◌==◌}
use webbpulse_python.Base.Tests.{if◌then◌else◌}

-- `a or b` on texts
abbrev pub or_text : String → String → String
or_text a b = if a == "" then b else a

-- `needle in haystack`
abbrev pub has_text : String → String → Bool
has_text needle String.[] = needle == ""
has_text needle (String.◌∷◌ c s) = starts_with (String.◌∷◌ c s) needle || has_text needle s

-- `text[n:]`
abbrev pub drop_text : ℕ → String → String
drop_text zero s = s
drop_text (suc n) String.[] = String.[]
drop_text (suc n) (String.◌∷◌ c s) = drop_text n s

-- `a < b`
abbrev pub text_lt : String → String → Bool
text_lt a b = elim (compare a b) [ Ordering.lt ↦ true | _ ↦ false ]

-- `x in xs`
abbrev pub mem_text : String → List String → Bool
mem_text x [] = false
mem_text x (y ∷ ys) = y == x || mem_text x ys

-- `text + suffix`
abbrev pub suffixed : String → String → String
suffixed String.[] t = t
suffixed (String.◌∷◌ c s) t = String.◌∷◌ c (suffixed s t)

pub suffixed-empty : (s : String) → suffixed s "" ≡ s
suffixed-empty String.[] = refl
suffixed-empty (String.◌∷◌ c s) = ap (String.◌∷◌ c) (suffixed-empty s)

append-suffixed : (s t : String) → s ++ t ≡ suffixed s t
append-suffixed String.[] t = append.nil t
append-suffixed (String.◌∷◌ c s) t = append.cons c s t ∙ ap (String.◌∷◌ c) (append-suffixed s t)

pub starts_with-suffixed : (s t : String) → starts_with (suffixed s t) s ≡ true
starts_with-suffixed s t =
    subst (λ u. starts_with u s ≡ true) (append-suffixed s t) (starts_with-append s t)

-- The parts of a formatted text, one after the other.
abbrev pub joined : List String → String
joined [] = ""
joined (t ∷ ts) = suffixed t (joined ts)

-- `tuple(dict.fromkeys(texts))`: the first occurrence of each, after those seen.
abbrev pub distinct_after : List String → List String → List String
distinct_after seen [] = []
distinct_after seen (x ∷ xs) =
    if mem_text x seen then distinct_after seen xs else x ∷ distinct_after (x ∷ seen) xs

-- The texts of the first list that are in the second.
abbrev pub within_texts : List String → List String → List String
within_texts held [] = []
within_texts held (x ∷ xs) =
    let rest = within_texts held xs in if mem_text x held then x ∷ rest else rest

-- `all(x in allowed for x in texts)`
abbrev pub all_in : List String → List String → Bool
all_in allowed [] = true
all_in allowed (x ∷ xs) = mem_text x allowed && all_in allowed xs
