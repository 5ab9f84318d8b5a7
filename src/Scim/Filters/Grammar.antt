-- ===== src/Scim/Filters/Grammar.antt =====
-- Every tree that the parser answers is one of the grammar, and nests within the limit.
use text.Mathlib.Text.{starts_with}
use mathlib.Core.Path.{subst}
use webbpulse_python.Base.{
  ℕ, zero, suc, ◌<◌, max, true, false, not, ◌&&◌, ◌||◌, String, List, [], ◌∷◌, ◌≡◌, ◌==◌, arith,
  if_rule, mem_text, Result, ok, raised, length,
}
use webbpulse_python.Runtime.{Runtime}
use webbpulse_python.Scim.Filters.Paths.{
  AttrPath, is_attr_name, parse_attr_path, invalid_filter, checked, partition, rpartition,
}
use webbpulse_python.Scim.Filters.Parser.{
  Token, paren, quoted, word, Value, FilterNode, present, compares, both, either, negated,
  value_path, Json, Parsed, is_paren, rest_of, expect, is_keyword, value_of, unordered, comparison,
  compared, operation, selected, denied, joins, loop, parse_and, parse_or, after_path,
  attribute_expression, unary_within, parse_unary, finished, parse_filter_tokens, compare_operators,
  ordering_operators, max_filter_depth,
}

abbrev pub PathNamed : AttrPath → Type 0
PathNamed p = (is_attr_name p.attribute ≡ true) × ((p.sub == "" || is_attr_name p.sub) ≡ true)

-- How deep the tree nests: `not (...)` and `attr[...]` each hold a filter.
unfoldable pub nesting : FilterNode → ℕ
nesting (either l r) = max (nesting l) (nesting r)
nesting (both l r) = max (nesting l) (nesting r)
nesting (negated n) = suc (nesting n)
nesting (value_path path n) = suc (nesting n)
nesting _ = 0

-- A property of the tree that a part of the parser answers, and of a result.
abbrev Yields : {A : Type 0} → (A → Type 0) → Parsed A → Type 0
Yields Q (raised code) = Unit
Yields Q (ok (a, ts)) = Q a

abbrev pub Answers : {A : Type 0} → (A → Type 0) → Result A → Type 0
Answers Q (raised code) = Unit
Answers Q (ok a) = Q a

expect-Yields :
    (Q : FilterNode → Type 0) (value : String) (x : Parsed FilterNode)
    → Yields Q x
    → Yields Q (expect value x)
expect-Yields Q value (raised code) q = tt
expect-Yields Q value (ok (a, ts)) q = if_rule (Yields Q) (is_paren value ts) _ _ (λ _. q) (λ _. tt)

module _ (rt : Runtime) (json : Json) where
  -- Attribute names are names, operators are known, and no ordering operator compares a boolean
  -- or null.
  unfoldable pub Sound : FilterNode → Type 0
  Sound (either l r) = Sound l × Sound r
  Sound (both l r) = Sound l × Sound r
  Sound (negated n) = Sound n
  Sound (value_path path n) = PathNamed path × Sound n
  Sound (present path) = PathNamed path
  Sound (compares path op v) =
      PathNamed path
      × (mem_text op compare_operators ≡ true)
      × ((mem_text op ordering_operators && unordered rt json v) ≡ false)

  abbrev pub Within : ℕ → FilterNode → Type 0
  Within depth n = Sound n × (nesting n < depth)

  module _ (depth : ℕ) where
    joins-Yields :
        (node : FilterNode → FilterNode → FilterNode) (left : FilterNode) (x : Parsed FilterNode)
        → ((l r : FilterNode) → Within depth l → Within depth r → Within depth (node l r))
        → Within depth left
        → Yields (Within depth) x
        → Yields (Within depth) (joins rt json node left x)
    joins-Yields node left (raised code) keeps q q' = tt
    joins-Yields node left (ok (right, ts)) keeps q q' = keeps left right q q'

    loop-Yields :
        (below : List Token → Parsed FilterNode) (w : String)
        (node : FilterNode → FilterNode → FilterNode) (fuel : ℕ) (x : Parsed FilterNode)
        → ((l r : FilterNode) → Within depth l → Within depth r → Within depth (node l r))
        → ((ts : List Token) → Yields (Within depth) (below ts))
        → Yields (Within depth) x
        → Yields (Within depth) (loop rt json below w node fuel x)
    loop-Yields below w node fuel (raised code) keeps each q = tt
    loop-Yields below w node zero (ok (left, ts)) keeps each q = tt
    loop-Yields below w node (suc fuel) (ok (left, ts)) keeps each q =
        if_rule (Yields (Within depth)) (is_keyword rt json w ts) _ _
          (λ _.
            loop-Yields below w node fuel (joins rt json node left (below (rest_of ts))) keeps each
              (joins-Yields node left (below (rest_of ts)) keeps q (each (rest_of ts))))
          (λ _. q)

    both-Within : (l r : FilterNode) → Within depth l → Within depth r → Within depth (both l r)
    unfolding Sound nesting
    both-Within l r (sound, less) (sound', less') = ((sound, sound'), omega (arith, less, less'))

    either-Within : (l r : FilterNode) → Within depth l → Within depth r → Within depth (either l r)
    unfolding Sound nesting
    either-Within l r (sound, less) (sound', less') = ((sound, sound'), omega (arith, less, less'))

    parse_or-Yields :
        (below : List Token → Parsed FilterNode) (fuel : ℕ) (ts : List Token)
        → ((us : List Token) → Yields (Within depth) (below us))
        → Yields (Within depth) (parse_or rt json below fuel ts)
    unfolding parse_or parse_and
    parse_or-Yields below fuel ts each =
        loop-Yields (parse_and rt json below fuel) "or" either fuel
          (parse_and rt json below fuel ts) either-Within conjunctions (conjunctions ts)
      where
        conjunctions : (us : List Token) → Yields (Within depth) (parse_and rt json below fuel us)
        conjunctions us = loop-Yields below "and" both fuel (below us) both-Within each (each us)

    selected-Yields :
        (path : AttrPath) (x : Parsed FilterNode)
        → PathNamed path
        → Yields (Within depth) x
        → Yields (Within (suc depth)) (selected rt json path x)
    unfolding Sound nesting
    selected-Yields path (raised code) named q = tt
    selected-Yields path (ok (inner, ts)) named (sound, less) =
        ((named, sound), omega (arith, less))

    denied-Yields :
        (x : Parsed FilterNode)
        → Yields (Within depth) x
        → Yields (Within (suc depth)) (denied rt json x)
    unfolding Sound nesting
    denied-Yields (raised code) q = tt
    denied-Yields (ok (inner, ts)) (sound, less) = (sound, omega (arith, less))

    weaker : (x : Parsed FilterNode) → Yields (Within depth) x → Yields (Within (suc depth)) x
    weaker (raised code) q = tt
    weaker (ok (n, ts)) (sound, less) = (sound, omega (arith, less))

    comparison-Yields :
        (path : AttrPath) (op : String) (ts : List Token) (v : Result Value)
        → PathNamed path
        → mem_text op compare_operators ≡ true
        → Yields (Within (suc depth)) (comparison rt json path op ts v)
    unfolding Sound nesting
    comparison-Yields path op ts (raised code) named known = tt
    comparison-Yields path op ts (ok v) named known =
        if_rule (Yields (Within (suc depth)))
          (mem_text op ordering_operators && unordered rt json v) _ _ (λ _. tt)
          (λ ordered. ((named, known, ordered), omega arith))

    operation-Yields :
        (path : AttrPath) (ts : List Token)
        → PathNamed path
        → Yields (Within (suc depth)) (operation rt json path ts)
    unfolding Sound nesting
    operation-Yields path [] named = tt
    operation-Yields path (paren t ∷ ts) named = tt
    operation-Yields path (quoted t ∷ ts) named = tt
    operation-Yields path (word t ∷ ts) named =
        if_rule (Yields (Within (suc depth)))
          (not (rt.lower t == "pr") && not (mem_text (rt.lower t) compare_operators)) _ _ (λ _. tt)
          (λ known.
            if_rule (Yields (Within (suc depth))) (rt.lower t == "pr") _ _
              (λ _. (named, omega arith))
              (λ other. compared-Yields ts (ground (arith, known, other))))
      where
        compared-Yields :
            (us : List Token)
            → mem_text (rt.lower t) compare_operators ≡ true
            → Yields (Within (suc depth)) (compared rt json path (rt.lower t) us)
        compared-Yields [] known = tt
        compared-Yields (u ∷ us) known =
            comparison-Yields path (rt.lower t) us (value_of rt json u) named known

    after_path-Yields :
        (deeper : List Token → Parsed FilterNode) (p : Result AttrPath) (ts : List Token)
        → ((us : List Token) → Yields (Within depth) (deeper us))
        → Answers PathNamed p
        → Yields (Within (suc depth)) (after_path rt json deeper p ts)
    after_path-Yields deeper (raised code) ts each named = tt
    after_path-Yields deeper (ok path) ts each named =
        if_rule (Yields (Within (suc depth))) (is_paren "[" ts) _ _
          (λ _.
            selected-Yields path (expect "]" (deeper (rest_of ts))) named
              (expect-Yields (Within depth) "]" (deeper (rest_of ts)) (each (rest_of ts))))
          (λ _. operation-Yields path ts named)

  checked-Answers : (urn : String) (x : String × String) → Answers PathNamed (checked urn x)
  checked-Answers urn x =
      if_rule (Answers PathNamed)
        (not (is_attr_name x.0) || (not (x.1 == "") && not (is_attr_name x.1)))
        (raised invalid_filter) (ok (record { urn = urn; attribute = x.0; sub = x.1 })) (λ _. tt)
        (λ e. (ground (arith, e), ground (arith, e)))

  parse_attr_path-Answers : (t : String) → Answers PathNamed (parse_attr_path rt t)
  unfolding parse_attr_path
  parse_attr_path-Answers t =
      if_rule (Answers PathNamed) (starts_with (rt.lower t) "urn:") _ _
        (λ _.
          if_rule (Answers PathNamed) ((rpartition b':' t).0 == "" || (rpartition b':' t).1 == "") _
            _ (λ _. tt)
            (λ _. checked-Answers (rpartition b':' t).0 (partition b'.' (rpartition b':' t).1)))
        (λ _. checked-Answers "" (partition b'.' t))

  unary_within-Yields :
      (depth : ℕ) (deeper : List Token → Parsed FilterNode) (ts : List Token)
      → ((us : List Token) → Yields (Within depth) (deeper us))
      → Yields (Within (suc depth)) (unary_within rt json deeper ts)
  unary_within-Yields depth deeper ts each =
      if_rule (Yields (Within (suc depth))) (is_keyword rt json "not" ts) _ _
        (λ _.
          if_rule (Yields (Within (suc depth))) (is_paren "(" (rest_of ts)) _ _
            (λ _. denied-Yields depth (expect ")" (deeper (rest_of (rest_of ts)))) (
              expect-Yields (Within depth) ")" (deeper (rest_of (rest_of ts)))
                (each (rest_of (rest_of ts)))))
            (λ _. tt))
        (λ _.
          if_rule (Yields (Within (suc depth))) (is_paren "(" ts) _ _
            (λ _.
              weaker depth (expect ")" (deeper (rest_of ts)))
                (expect-Yields (Within depth) ")" (deeper (rest_of ts)) (each (rest_of ts))))
            (λ _. expression ts))
    where
      expression :
          (us : List Token) → Yields (Within (suc depth)) (attribute_expression rt json deeper us)
      expression [] = tt
      expression (paren t ∷ us) = tt
      expression (quoted t ∷ us) = tt
      expression (word t ∷ us) =
          after_path-Yields depth deeper (parse_attr_path rt t) us each (parse_attr_path-Answers t)

  parse_unary-Yields :
      (depth fuel : ℕ) (ts : List Token) → Yields (Within depth) (parse_unary rt json depth fuel ts)
  unfolding parse_unary
  parse_unary-Yields zero fuel ts = tt
  parse_unary-Yields (suc depth) fuel ts =
      unary_within-Yields depth (parse_or rt json (parse_unary rt json depth fuel) fuel) ts (λ us.
        parse_or-Yields depth (parse_unary rt json depth fuel) fuel us
          (parse_unary-Yields depth fuel))

  finished-Answers :
      (Q : FilterNode → Type 0) (x : Parsed FilterNode)
      → Yields Q x
      → Answers Q (finished rt json x)
  finished-Answers Q (raised code) q = tt
  finished-Answers Q (ok (node, [])) q = q
  finished-Answers Q (ok (node, t ∷ ts)) q = tt

  -- Every tree that the parser answers has attribute names that match their pattern and known
  -- comparison operators only, no ordering operator that compares a boolean or null, and less than
  -- 32 filters within filters, whatever the tokens are.
  pub parse_filter_tokens-Sound :
      (ts : List Token) (n : FilterNode)
      → parse_filter_tokens rt json ts ≡ ok n
      → Sound n × (nesting n < max_filter_depth)
  unfolding parse_filter_tokens
  parse_filter_tokens-Sound ts n e =
      let fuel : ℕ = suc (length ts) in
      let x : Parsed FilterNode =
        parse_or rt json (parse_unary rt json max_filter_depth fuel) fuel ts in
      subst (Answers (Within max_filter_depth)) e (
        finished-Answers (Within max_filter_depth) x (
          parse_or-Yields max_filter_depth (parse_unary rt json max_filter_depth fuel) fuel ts
            (parse_unary-Yields max_filter_depth fuel)))
