-- ===== src/Scim/Filters/Reads.antt =====
-- The round trip of a filter's tree through its tokens.
use mathlib.Core.List.{append-nil}
use webbpulse_python.Base.{
  ℕ, suc, ◌+◌, ◌-◌, ◌≤◌, ◌<◌, List, [], ◌∷◌, ◌++◌, ◌≡◌, arith, refl, sym, ◌∙◌, ap, ok, length,
  length-append,
}
use webbpulse_python.Runtime.{Runtime}
use webbpulse_python.Scim.Filters.Parser.{
  Token, paren, word, Value, FilterNode, present, compares, both, either, negated, value_path, Json,
  parse_and, parse_or, parse_unary, finished, parse_filter_tokens, max_filter_depth,
}
use webbpulse_python.Scim.Filters.Print.{
  Place, filter_place, and_place, unary_place, bracketed, print, levels, size, Printable,
}
use webbpulse_python.Scim.Filters.RoundTrip.{
  LowerLaws, ands, ors, ands-size, ors-size, ReadsUnary, ReadsAnd, ReadsOr, loop-stops,
  and-from_unary, or-from_and, ReadsAnd-both, ReadsOr-either, unary-bracketed, ReadsUnary-negated,
  ReadsUnary-value_path, ReadsUnary-present, ReadsUnary-compares,
}

module _ (value_token : Value → Token) where
  length-bracketed : (ts : List Token) → length ts < length (bracketed ts)
  length-bracketed ts = omega (arith, length-append ts (paren ")" ∷ []))

  beside :
      (a b : ℕ) (xs ys : List Token) (t : Token)
      → a ≤ length xs
      → b ≤ length ys
      → suc (a + b) ≤ length (xs ++ (t ∷ ys))
  beside a b xs ys t le le' = omega (arith, length-append xs (t ∷ ys), le, le')

  beside_bracketed :
      (a b : ℕ) (xs ys : List Token) (t : Token)
      → a ≤ length xs
      → b ≤ length ys
      → suc (a + b) ≤ length (bracketed (xs ++ (t ∷ ys)))
  beside_bracketed a b xs ys t le le' =
      omega (arith, beside a b xs ys t le le', length-bracketed (xs ++ (t ∷ ys)))

  -- A tree has no more nodes than tokens.
  size-length : (p : Place) (n : FilterNode) → size n ≤ length (print value_token p n)
  unfolding size print
  size-length filter_place (either l r) =
      beside (size l) (size r) _ _ (word "or") (size-length filter_place l)
        (size-length and_place r)
  size-length and_place (either l r) =
      beside_bracketed (size l) (size r) _ _ (word "or") (size-length filter_place l)
        (size-length and_place r)
  size-length unary_place (either l r) =
      beside_bracketed (size l) (size r) _ _ (word "or") (size-length filter_place l)
        (size-length and_place r)
  size-length filter_place (both l r) =
      beside (size l) (size r) _ _ (word "and") (size-length and_place l)
        (size-length unary_place r)
  size-length and_place (both l r) =
      beside (size l) (size r) _ _ (word "and") (size-length and_place l)
        (size-length unary_place r)
  size-length unary_place (both l r) =
      beside_bracketed (size l) (size r) _ _ (word "and") (size-length and_place l)
        (size-length unary_place r)
  size-length p (negated n) =
      omega (arith, length-bracketed (print value_token filter_place n), size-length filter_place n)
  size-length p (value_path path n) = omega (
    arith,
    length-append (print value_token filter_place n) (paren "]" ∷ []),
    size-length filter_place n,
  )
  size-length p (present path) = omega arith
  size-length p (compares path op v) = omega arith

module _ (rt : Runtime) (json : Json) (value_token : Value → Token) (laws : LowerLaws rt) where
  abbrev Reads : ℕ → FilterNode → Type 0
  Reads fuel n =
      ReadsUnary rt json value_token laws fuel n
      × ReadsAnd rt json value_token laws fuel n
      × ReadsOr rt json value_token laws fuel n

  -- A tree that prints alike in every place is read wherever it stands.
  alike :
      (fuel : ℕ) (n : FilterNode)
      → size n < fuel
      → ands n ≡ 0
      → ors n ≡ 0
      → print value_token filter_place n ≡ print value_token unary_place n
      → print value_token and_place n ≡ print value_token unary_place n
      → levels filter_place n ≡ levels unary_place n
      → levels and_place n ≡ levels unary_place n
      → ReadsUnary rt json value_token laws fuel n
      → Reads fuel n
  alike fuel n enough zero_ands zero_ors pf pa lf la reads =
      let as_and = and-from_unary rt json value_token laws fuel n zero_ands pa la reads in
      (
        reads,
        as_and,
        or-from_and rt json value_token laws fuel n zero_ors (omega (arith, enough, zero_ands))
            (pf ∙ sym pa) (omega (arith, lf, la)) as_and,
      )

  reads :
      (fuel : ℕ) (n : FilterNode) → Printable rt json value_token n → size n < fuel → Reads fuel n
  unfolding print levels size Printable
  reads fuel (present path) p enough =
      alike fuel (present path) enough refl refl refl refl refl refl
        (ReadsUnary-present rt json value_token laws fuel path p)
  reads fuel (compares path op v) p enough =
      alike fuel (compares path op v) enough refl refl refl refl refl refl
        (ReadsUnary-compares rt json value_token laws fuel path op v p)
  reads fuel (negated n) p enough = alike fuel (negated n) enough refl refl refl refl refl refl (
      ReadsUnary-negated rt json value_token laws fuel n (omega (arith, enough))
        (reads fuel n p (omega (arith, enough))).2)
  reads fuel (value_path path n) p enough =
      alike fuel (value_path path n) enough refl refl refl refl refl refl (
        ReadsUnary-value_path rt json value_token laws fuel path n p.0 (omega (arith, enough))
          (reads fuel n p.1 (omega (arith, enough))).2)
  reads fuel (both l r) p enough =
      let as_and =
        ReadsAnd-both rt json value_token laws fuel l r enough
          (reads fuel l p.0 (omega (arith, enough))).1
          (reads fuel r p.1 (omega (arith, enough))).0 in
      let as_or =
        or-from_and rt json value_token laws fuel (both l r) refl
          (omega (arith, enough, ands-size (both l r))) refl refl as_and in
      (
        (λ depth rest le.
            unary-bracketed rt json value_token laws fuel (both l r) depth rest enough le as_or),
        as_and,
        as_or,
      )
  reads fuel (either l r) p enough =
      let as_or =
        ReadsOr-either rt json value_token laws fuel l r enough
          (reads fuel l p.0 (omega (arith, enough))).2
          (reads fuel r p.1 (omega (arith, enough))).1 in
      let as_unary : ReadsUnary rt json value_token laws fuel (either l r) = λ depth rest le.
        unary-bracketed rt json value_token laws fuel (either l r) depth rest enough le as_or in
      (
        as_unary,
        and-from_unary rt json value_token laws fuel (either l r) refl refl refl as_unary,
        as_or,
      )

  -- The parser reads a tree back from its tokens, where the tree is one that the grammar has, its
  -- values are written as tokens that read back, and it nests no deeper than the limit of 32: the
  -- precedence of `not` over `and` over `or`, the brackets and the grouping to the left are those
  -- of the tree.
  pub parse_filter_tokens-print :
      (n : FilterNode)
      → Printable rt json value_token n
      → levels filter_place n ≤ max_filter_depth
      → parse_filter_tokens rt json (print value_token filter_place n) ≡ ok n
  unfolding parse_filter_tokens
  parse_filter_tokens-print n printable shallow =
      let ts : List Token = print value_token filter_place n in
      let fuel : ℕ = suc (length ts) in
      let enough : size n < fuel = omega (arith, size-length value_token filter_place n) in
      ap
        (λ us.
          finished rt json (parse_or rt json (parse_unary rt json max_filter_depth fuel) fuel us))
        (sym (append-nil ts))
      ∙ ap (finished rt json) (
          (reads fuel n printable enough).2 max_filter_depth [] shallow refl
          ∙ loop-stops rt json value_token laws fuel
              (parse_and rt json (parse_unary rt json max_filter_depth fuel) fuel) "or" either
              (fuel - ors n) n [] (omega (arith, enough, ors-size n)) refl)
