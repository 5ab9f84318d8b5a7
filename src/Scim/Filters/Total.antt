-- ===== src/Scim/Filters/Total.antt =====
-- The parser always finishes within its fuel, and every part of it that succeeds consumes a token.
use text.Mathlib.Text.{starts_with}
use webbpulse_python.Base.{
  ℕ, zero, suc, ◌≤◌, ◌<◌, true, not, ◌&&◌, ◌||◌, String, Option, none, some, List, [], ◌∷◌, ◌≡◌,
  ◌==◌, arith, refl, ap, inl, inr, ◌⊎◌, if_rule, mem_text, Result, ok, raised, length,
}
use webbpulse_python.Runtime.{Runtime}
use webbpulse_python.Scim.Filters.Paths.{
  AttrPath, is_attr_name, parse_attr_path, invalid_filter, checked, partition, rpartition,
}
use webbpulse_python.Scim.Filters.Parser.{
  Token, paren, quoted, word, Value, FilterNode, both, either, Json, Parsed, is_paren, rest_of,
  expect, is_keyword, loaded, value_of, unordered, comparison, compared, operation, selected,
  denied, joins, loop, parse_and, parse_or, after_path, attribute_expression, unary_within,
  parse_unary, finished, parse_filter_tokens, compare_operators, ordering_operators,
  max_filter_depth, is_number,
}

-- A part of the parser raised no error but the one of a filter that is not valid, running out of
-- fuel included, and left fewer tokens than the bound.
abbrev pub Fine : {A : Type 0} → ℕ → Parsed A → Type 0
Fine n (raised code) = code ≡ invalid_filter
Fine n (ok (a, ts)) = length ts < n

abbrev pub Fuelled : {A : Type 0} → Result A → Type 0
Fuelled (raised code) = code ≡ invalid_filter
Fuelled (ok a) = Unit

Fuelled-cases :
    {A : Type 0} (x : Result A) → Fuelled x → ((a : A) × (x ≡ ok a)) ⊎ (x ≡ raised invalid_filter)
Fuelled-cases (raised code) e = inr (ap raised e)
Fuelled-cases (ok a) e = inl (a, refl)

invalid : invalid_filter ≡ invalid_filter
invalid = refl

Fine-weaken : {A : Type 0} (n m : ℕ) (x : Parsed A) → n ≤ m → Fine n x → Fine m x
Fine-weaken n m (raised code) le fine = fine
Fine-weaken n m (ok (a, ts)) le fine = omega (arith, le, fine)

length-rest_of : (ts : List Token) → length (rest_of ts) ≤ length ts
length-rest_of [] = omega arith
length-rest_of (t ∷ ts) = omega arith

is_paren-length :
    (value : String) (ts : List Token) → is_paren value ts ≡ true → length (rest_of ts) < length ts
is_paren-length value [] e = absurd (cc (e))
is_paren-length value (t ∷ ts) e = omega arith

expect-Fine :
    {A : Type 0} (value : String) (n : ℕ) (x : Parsed A) → Fine n x → Fine n (expect value x)
expect-Fine value n (raised code) fine = fine
expect-Fine value n (ok (a, ts)) fine =
    if_rule (Fine n) (is_paren value ts) _ _ (λ e. omega (arith, fine, length-rest_of ts))
      (λ _. invalid)

module _ (rt : Runtime) (json : Json) where
  is_keyword-length :
      (w : String) (ts : List Token)
      → is_keyword rt json w ts ≡ true
      → length (rest_of ts) < length ts
  is_keyword-length w [] e = absurd (cc (e))
  is_keyword-length w (t ∷ ts) e = omega arith

  joins-Fine :
      (node : FilterNode → FilterNode → FilterNode) (left : FilterNode) (n : ℕ)
      (x : Parsed FilterNode)
      → Fine n x
      → Fine n (joins rt json node left x)
  joins-Fine node left n (raised code) fine = fine
  joins-Fine node left n (ok (right, ts)) fine = fine

  selected-Fine :
      (path : AttrPath) (n : ℕ) (x : Parsed FilterNode)
      → Fine n x
      → Fine n (selected rt json path x)
  selected-Fine path n (raised code) fine = fine
  selected-Fine path n (ok (inner, ts)) fine = fine

  denied-Fine : (n : ℕ) (x : Parsed FilterNode) → Fine n x → Fine n (denied rt json x)
  denied-Fine n (raised code) fine = fine
  denied-Fine n (ok (inner, ts)) fine = fine

  -- A parser that is fine on every list of tokens that the fuel covers.
  abbrev pub FineBelow : ℕ → (List Token → Parsed FilterNode) → Type 0
  FineBelow fuel below = (ts : List Token) → length ts < fuel → Fine (length ts) (below ts)

  loop-Fine :
      (below : List Token → Parsed FilterNode) (w : String)
      (node : FilterNode → FilterNode → FilterNode) (fuel k n : ℕ) (x : Parsed FilterNode)
      → FineBelow fuel below
      → k ≤ fuel
      → n ≤ k
      → Fine n x
      → Fine n (loop rt json below w node k x)
  loop-Fine below w node fuel k n (raised code) good le le' fine = fine
  loop-Fine below w node fuel zero n (ok (left, ts)) good le le' fine =
      absurd (omega (arith, le', fine))
  loop-Fine below w node fuel (suc k) n (ok (left, ts)) good le le' fine =
      if_rule (Fine n) (is_keyword rt json w ts) _ _
        (λ hit.
          let shorter : length (rest_of ts) < length ts = is_keyword-length w ts hit in
          Fine-weaken (length ts) n
            (loop rt json below w node k (joins rt json node left (below (rest_of ts))))
            (omega (arith, fine))
            (loop-Fine below w node fuel k (length ts)
              (joins rt json node left (below (rest_of ts))) good (omega (arith, le))
              (omega (arith, le', fine))
              (joins-Fine node left (length ts) (below (rest_of ts)) (
                Fine-weaken (length (rest_of ts)) (length ts) (below (rest_of ts))
                  (omega (arith, shorter))
                  (good (rest_of ts) (omega (arith, shorter, fine, le, le')))))))
        (λ _. fine)

  parse_and-FineBelow :
      (below : List Token → Parsed FilterNode) (fuel : ℕ)
      → FineBelow fuel below
      → FineBelow fuel (parse_and rt json below fuel)
  unfolding parse_and
  parse_and-FineBelow below fuel good ts le =
      loop-Fine below "and" both fuel fuel (length ts) (below ts) good (omega arith)
        (omega (arith, le)) (good ts le)

  parse_or-FineBelow :
      (below : List Token → Parsed FilterNode) (fuel : ℕ)
      → FineBelow fuel below
      → FineBelow fuel (parse_or rt json below fuel)
  unfolding parse_or
  parse_or-FineBelow below fuel good ts le =
      loop-Fine (parse_and rt json below fuel) "or" either fuel fuel (length ts)
        (parse_and rt json below fuel ts) (parse_and-FineBelow below fuel good) (omega arith)
        (omega (arith, le)) (parse_and-FineBelow below fuel good ts le)

  checked-Fuelled : (urn : String) (x : String × String) → Fuelled (checked urn x)
  checked-Fuelled urn x =
      if_rule Fuelled (not (is_attr_name x.0) || (not (x.1 == "") && not (is_attr_name x.1)))
        (raised invalid_filter) (ok (record { urn = urn; attribute = x.0; sub = x.1 }))
        (λ _. invalid) (λ _. tt)

  parse_attr_path-Fuelled : (t : String) → Fuelled (parse_attr_path rt t)
  unfolding parse_attr_path
  parse_attr_path-Fuelled t =
      if_rule Fuelled (starts_with (rt.lower t) "urn:") _ _
        (λ _.
          if_rule Fuelled ((rpartition b':' t).0 == "" || (rpartition b':' t).1 == "") _ _
            (λ _. invalid)
            (λ _. checked-Fuelled (rpartition b':' t).0 (partition b'.' (rpartition b':' t).1)))
        (λ _. checked-Fuelled "" (partition b'.' t))

  loaded-Fuelled : (o : Option String) → Fuelled (loaded rt json o)
  loaded-Fuelled none = invalid
  loaded-Fuelled (some s) = tt

  value_of-Fuelled : (t : Token) → Fuelled (value_of rt json t)
  unfolding value_of
  value_of-Fuelled (paren t) = invalid
  value_of-Fuelled (quoted t) = loaded-Fuelled (json.loads t)
  value_of-Fuelled (word t) =
      if_rule Fuelled (rt.lower t == "true" || rt.lower t == "false") _ _ (λ _. tt)
        (λ _.
          if_rule Fuelled (rt.lower t == "null") _ _ (λ _. tt)
            (λ _. if_rule Fuelled (is_number t) _ _ (λ _. tt) (λ _. invalid)))

  comparison-Fine :
      (path : AttrPath) (op : String) (ts : List Token) (n : ℕ) (v : Result Value)
      → length ts < n
      → Fuelled v
      → Fine n (comparison rt json path op ts v)
  comparison-Fine path op ts n (raised code) le fine = fine
  comparison-Fine path op ts n (ok v) le fine =
      if_rule (Fine n) (mem_text op ordering_operators && unordered rt json v) _ _ (λ _. invalid)
        (λ _. le)

  operation-Fine :
      (path : AttrPath) (ts : List Token) (n : ℕ)
      → length ts < n
      → Fine n (operation rt json path ts)
  operation-Fine path [] n le = invalid
  operation-Fine path (paren t ∷ ts) n le = invalid
  operation-Fine path (quoted t ∷ ts) n le = invalid
  operation-Fine path (word t ∷ ts) n le =
      if_rule (Fine n) (not (rt.lower t == "pr") && not (mem_text (rt.lower t) compare_operators)) _
        _ (λ _. invalid)
        (λ _.
          if_rule (Fine n) (rt.lower t == "pr") _ _ (λ _. omega (arith, le))
            (λ _. compared-Fine ts (omega (arith, le))))
    where
      compared-Fine :
          (us : List Token) → length us < n → Fine n (compared rt json path (rt.lower t) us)
      compared-Fine [] le = invalid
      compared-Fine (u ∷ us) le =
          comparison-Fine path (rt.lower t) us n (value_of rt json u) (omega (arith, le))
            (value_of-Fuelled u)

  module _ (deeper : List Token → Parsed FilterNode) (fuel : ℕ) (good : FineBelow fuel deeper) where
    inner-Fine : (ts : List Token) (n : ℕ) → length ts < n → n ≤ fuel → Fine n (deeper ts)
    inner-Fine ts n le le' =
        Fine-weaken (length ts) n (deeper ts) (omega (arith, le)) (good ts (omega (arith, le, le')))

    after_path-Fine :
        (p : Result AttrPath) (ts : List Token) (n : ℕ)
        → length ts < n
        → n ≤ fuel
        → Fuelled p
        → Fine n (after_path rt json deeper p ts)
    after_path-Fine (raised code) ts n le le' fine = fine
    after_path-Fine (ok path) ts n le le' fine =
        if_rule (Fine n) (is_paren "[" ts) _ _
          (λ hit. selected-Fine path n (expect "]" (deeper (rest_of ts))) (
            expect-Fine "]" n (deeper (rest_of ts))
              (inner-Fine (rest_of ts) n (omega (arith, le, length-rest_of ts)) le')))
          (λ _. operation-Fine path ts n le)

    unary_within-FineBelow : FineBelow (suc fuel) (unary_within rt json deeper)
    unary_within-FineBelow ts le =
        if_rule (Fine (length ts)) (is_keyword rt json "not" ts) _ _
          (λ hit.
            if_rule (Fine (length ts)) (is_paren "(" (rest_of ts)) _ _
              (λ bracket. denied-Fine (length ts) (expect ")" (deeper (rest_of (rest_of ts)))) (
                expect-Fine ")" (length ts) (deeper (rest_of (rest_of ts))) (
                  inner-Fine (rest_of (rest_of ts)) (length ts)
                    (omega (arith, is_keyword-length "not" ts hit, length-rest_of (rest_of ts)))
                    (omega (arith, le)))))
              (λ _. invalid))
          (λ _.
            if_rule (Fine (length ts)) (is_paren "(" ts) _ _
              (λ bracket. expect-Fine ")" (length ts) (deeper (rest_of ts)) (
                inner-Fine (rest_of ts) (length ts) (is_paren-length "(" ts bracket)
                  (omega (arith, le))))
              (λ _. expression ts (omega (arith, le))))
      where
        expression :
            (us : List Token)
            → length us ≤ fuel
            → Fine (length us) (attribute_expression rt json deeper us)
        expression [] le = invalid
        expression (paren t ∷ us) le = invalid
        expression (quoted t ∷ us) le = invalid
        expression (word t ∷ us) le =
            after_path-Fine (parse_attr_path rt t) us (suc (length us)) (omega arith) le
              (parse_attr_path-Fuelled t)

  parse_unary-FineBelow : (levels fuel : ℕ) → FineBelow fuel (parse_unary rt json levels fuel)
  unfolding parse_unary
  parse_unary-FineBelow zero fuel ts le = invalid
  parse_unary-FineBelow (suc levels) fuel ts le =
      unary_within-FineBelow (parse_or rt json (parse_unary rt json levels fuel) fuel) fuel
        (parse_or-FineBelow (parse_unary rt json levels fuel) fuel
          (parse_unary-FineBelow levels fuel))
        ts (omega (arith, le))

  finished-Fuelled : (n : ℕ) (x : Parsed FilterNode) → Fine n x → Fuelled (finished rt json x)
  finished-Fuelled n (raised code) fine = fine
  finished-Fuelled n (ok (node, [])) fine = tt
  finished-Fuelled n (ok (node, t ∷ ts)) fine = invalid

  -- Parsing the tokens of a filter always ends with a tree or with the error of a filter that is
  -- not valid, and with no other error: one round more than there are tokens is enough for every
  -- loop of the parser, at every level of nesting.
  pub parse_filter_tokens-total :
      (ts : List Token)
      → ((n : FilterNode) × (parse_filter_tokens rt json ts ≡ ok n))
        ⊎ (parse_filter_tokens rt json ts ≡ raised invalid_filter)
  unfolding parse_filter_tokens
  parse_filter_tokens-total ts =
      let fuel : ℕ = suc (length ts) in
      let x : Parsed FilterNode =
        parse_or rt json (parse_unary rt json max_filter_depth fuel) fuel ts in
      Fuelled-cases (finished rt json x) (
        finished-Fuelled (length ts) x (
          parse_or-FineBelow (parse_unary rt json max_filter_depth fuel) fuel
            (parse_unary-FineBelow max_filter_depth fuel) ts (omega arith)))
