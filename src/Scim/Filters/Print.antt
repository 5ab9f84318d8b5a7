-- ===== src/Scim/Filters/Print.antt =====
-- The tokens of a filter's tree, with brackets where the grammar needs them: what the parser is
-- meant to read back.
use webbpulse_python.Base.{
  ℕ, suc, ◌+◌, max, true, false, ◌&&◌, List, [], ◌∷◌, ◌++◌, ◌≡◌, ◌==◌, mem_text, ok,
}
use webbpulse_python.Runtime.{Runtime}
use webbpulse_python.Scim.Filters.Paths.{AttrPath, path_text, parse_attr_path}
use webbpulse_python.Scim.Filters.Parser.{
  Token, paren, word, Value, FilterNode, present, compares, both, either, negated, value_path, Json,
  compare_operators, ordering_operators, unordered, value_of,
}

-- Where a tree stands: as a whole filter, beside `and`, or behind `not`.
pub data Place : Type 0 where
  filter_place and_place unary_place : Place

abbrev pub bracketed : List Token → List Token
bracketed ts = paren "(" ∷ (ts ++ (paren ")" ∷ []))

abbrev either_brackets : Place → List Token → List Token
either_brackets filter_place ts = ts
either_brackets _ ts = bracketed ts

abbrev both_brackets : Place → List Token → List Token
both_brackets unary_place ts = bracketed ts
both_brackets _ ts = ts

module _ (value_token : Value → Token) where
  unfoldable pub print : Place → FilterNode → List Token
  print p (either l r) = either_brackets p (print filter_place l ++ (word "or" ∷ print and_place r))
  print p (both l r) = both_brackets p (print and_place l ++ (word "and" ∷ print unary_place r))
  print p (negated n) = word "not" ∷ bracketed (print filter_place n)
  print p (value_path path n) =
      word (path_text path) ∷ paren "[" ∷ (print filter_place n ++ (paren "]" ∷ []))
  print p (present path) = word (path_text path) ∷ word "pr" ∷ []
  print p (compares path op v) = word (path_text path) ∷ word op ∷ value_token v ∷ []

abbrev either_levels : Place → ℕ → ℕ
either_levels filter_place n = n
either_levels _ n = suc n

abbrev both_levels : Place → ℕ → ℕ
both_levels unary_place n = suc n
both_levels _ n = n

-- The levels of nesting that the tokens take.
unfoldable pub levels : Place → FilterNode → ℕ
levels p (either l r) = either_levels p (max (levels filter_place l) (levels and_place r))
levels p (both l r) = both_levels p (max (levels and_place l) (levels unary_place r))
levels p (negated n) = suc (levels filter_place n)
levels p (value_path path n) = suc (levels filter_place n)
levels p (present path) = 1
levels p (compares path op v) = 1

unfoldable pub size : FilterNode → ℕ
size (either l r) = suc (size l + size r)
size (both l r) = suc (size l + size r)
size (negated n) = suc (size n)
size (value_path path n) = suc (size n)
size (present path) = 1
size (compares path op v) = 1

module _ (rt : Runtime) (json : Json) (value_token : Value → Token) where
  -- The text of the path reads back, and is no keyword.
  abbrev pub PathReads : AttrPath → Type 0
  PathReads path =
      (parse_attr_path rt (path_text path) ≡ ok path) × (rt.lower (path_text path) == "not" ≡ false)

  -- A tree that the grammar has: its paths and values read back, its operators are known, and an
  -- ordering operator compares no boolean and no null.
  unfoldable pub Printable : FilterNode → Type 0
  Printable (either l r) = Printable l × Printable r
  Printable (both l r) = Printable l × Printable r
  Printable (negated n) = Printable n
  Printable (value_path path n) = PathReads path × Printable n
  Printable (present path) = PathReads path
  Printable (compares path op v) =
      PathReads path
      × (mem_text op compare_operators ≡ true)
      × (rt.lower op ≡ op)
      × (mem_text op ordering_operators && unordered rt json v ≡ false)
      × (value_of rt json (value_token v) ≡ ok v)
