-- ===== src/Scim/Filters/RoundTrip.antt =====
-- A tree that the grammar has is what the parser reads from its tokens.
use mathlib.Core.Path.{subst}
use mathlib.Core.List.{append_assoc}
use webbpulse_python.Base.{
  ℕ, zero, suc, ◌-◌, ◌≤◌, ◌<◌, true, false, String, List, [], ◌∷◌, ◌++◌, ◌≡◌, ◌==◌, arith, refl,
  ◌∙◌, ap, eq_iff, Bool-cases, inl, inr, if_true, if_false, mem_text, ok,
}
use webbpulse_python.Runtime.{Runtime}
use webbpulse_python.Scim.Filters.Paths.{AttrPath, path_text}
use webbpulse_python.Scim.Filters.Parser.{
  Token, paren, word, Value, FilterNode, present, compares, both, either, negated, value_path, Json,
  Parsed, expect, is_keyword, selected, denied, joins, loop, parse_and, parse_or, after_path,
  parse_unary, compare_operators,
}
use webbpulse_python.Scim.Filters.Print.{
  filter_place, and_place, unary_place, bracketed, print, levels, size, PathReads, Printable,
}

-- What `str.lower` does to the words of the grammar.
pub record LowerLaws (rt : Runtime) : Type 0 where
  pub lower_or : rt.lower "or" ≡ "or"
  pub lower_and : rt.lower "and" ≡ "and"
  pub lower_not : rt.lower "not" ≡ "not"
  pub lower_pr : rt.lower "pr" ≡ "pr"

-- How often the loops of the two levels go round on the tokens of a tree.
abbrev pub ands : FilterNode → ℕ
ands (both l r) = suc (ands l)
ands _ = 0

abbrev pub ors : FilterNode → ℕ
ors (either l r) = suc (ors l)
ors _ = 0

pub ands-size : (n : FilterNode) → ands n ≤ size n
unfolding size
ands-size (both l r) = omega (arith, ands-size l)
ands-size (either l r) = omega arith
ands-size (negated n) = omega arith
ands-size (value_path path n) = omega arith
ands-size (present path) = omega arith
ands-size (compares path op v) = omega arith

pub ors-size : (n : FilterNode) → ors n ≤ size n
unfolding size
ors-size (either l r) = omega (arith, ors-size l)
ors-size (both l r) = omega arith
ors-size (negated n) = omega arith
ors-size (value_path path n) = omega arith
ors-size (present path) = omega arith
ors-size (compares path op v) = omega arith

module _ (rt : Runtime) (json : Json) (value_token : Value → Token) (laws : LowerLaws rt)
    (fuel : ℕ) where
  abbrev unary : ℕ → List Token → Parsed FilterNode
  unary depth = parse_unary rt json depth fuel

  abbrev conjunction : ℕ → List Token → Parsed FilterNode
  conjunction depth = parse_and rt json (unary depth) fuel

  abbrev filter : ℕ → List Token → Parsed FilterNode
  filter depth = parse_or rt json (unary depth) fuel

  abbrev and_loop : ℕ → ℕ → Parsed FilterNode → Parsed FilterNode
  and_loop depth k x = loop rt json (unary depth) "and" both k x

  abbrev or_loop : ℕ → ℕ → Parsed FilterNode → Parsed FilterNode
  or_loop depth k x = loop rt json (conjunction depth) "or" either k x

  -- What the three levels of the parser read from the tokens of a tree, with others behind them.
  abbrev pub ReadsUnary : FilterNode → Type 0
  ReadsUnary n =
      (depth : ℕ) (rest : List Token)
      → levels unary_place n ≤ depth
      → unary depth (print value_token unary_place n ++ rest) ≡ ok (n, rest)

  abbrev pub ReadsAnd : FilterNode → Type 0
  ReadsAnd n =
      (depth : ℕ) (rest : List Token)
      → levels and_place n ≤ depth
      → conjunction depth (print value_token and_place n ++ rest)
        ≡ and_loop depth (fuel - ands n) (ok (n, rest))

  abbrev pub ReadsOr : FilterNode → Type 0
  ReadsOr n =
      (depth : ℕ) (rest : List Token)
      → levels filter_place n ≤ depth
      → is_keyword rt json "and" rest ≡ false
      → filter depth (print value_token filter_place n ++ rest)
        ≡ or_loop depth (fuel - ors n) (ok (n, rest))

  pub loop-stops :
      (below : List Token → Parsed FilterNode) (w : String)
      (node : FilterNode → FilterNode → FilterNode) (k : ℕ) (n : FilterNode) (rest : List Token)
      → 0 < k
      → is_keyword rt json w rest ≡ false
      → loop rt json below w node k (ok (n, rest)) ≡ ok (n, rest)
  loop-stops below w node zero n rest pos e = absurd (omega (arith, pos))
  loop-stops below w node (suc k) n rest pos e = rw (e)

  loop-turns :
      (below : List Token → Parsed FilterNode) (w : String)
      (node : FilterNode → FilterNode → FilterNode) (k : ℕ) (n : FilterNode) (rest : List Token)
      → 0 < k
      → rt.lower w ≡ w
      → loop rt json below w node k (ok (n, word w ∷ rest))
        ≡ loop rt json below w node (k - 1) (joins rt json node n (below rest))
  loop-turns below w node zero n rest pos e = absurd (omega (arith, pos))
  loop-turns below w node (suc k) n rest pos e =
      if_true (rt.lower w == w) _ _ ((eq_iff (rt.lower w) w).1 e)
      ∙ ap (λ k. loop rt json below w node k (joins rt json node n (below rest))) (omega arith)

  -- A place where a tree prints as in the place below it reads as there.
  pub and-from_unary :
      (n : FilterNode)
      → ands n ≡ 0
      → print value_token and_place n ≡ print value_token unary_place n
      → levels and_place n ≡ levels unary_place n
      → ReadsUnary n
      → ReadsAnd n
  unfolding parse_and
  and-from_unary n zero_ands same same_levels reads depth rest le =
      ap (λ ts. conjunction depth (ts ++ rest)) same
      ∙ ap (and_loop depth fuel) (reads depth rest (omega (arith, same_levels, le)))
      ∙ ap (λ k. and_loop depth k (ok (n, rest))) (omega (arith, zero_ands))

  pub or-from_and :
      (n : FilterNode)
      → ors n ≡ 0
      → ands n < fuel
      → print value_token filter_place n ≡ print value_token and_place n
      → levels filter_place n ≡ levels and_place n
      → ReadsAnd n
      → ReadsOr n
  unfolding parse_or
  or-from_and n zero_ors enough same same_levels reads depth rest le stops =
      ap (λ ts. filter depth (ts ++ rest)) same
      ∙ ap (or_loop depth fuel) (
          reads depth rest (omega (arith, same_levels, le))
          ∙ loop-stops (unary depth) "and" both (fuel - ands n) n rest (omega (arith, enough))
              stops)
      ∙ ap (λ k. or_loop depth k (ok (n, rest))) (omega (arith, zero_ors))

  pub ReadsAnd-both :
      (l r : FilterNode) → size (both l r) < fuel → ReadsAnd l → ReadsUnary r → ReadsAnd (both l r)
  unfolding print levels size
  ReadsAnd-both l r enough left right depth rest le =
      let pl : List Token = print value_token and_place l in
      let pr : List Token = print value_token unary_place r in
      ap (conjunction depth) (append_assoc pl (word "and" ∷ pr) rest)
      ∙ left depth (word "and" ∷ (pr ++ rest)) (omega (arith, le))
      ∙ loop-turns (unary depth) "and" both (fuel - ands l) l (pr ++ rest)
          (omega (arith, enough, ands-size l)) laws.lower_and
      ∙ ap (λ x. and_loop depth (fuel - ands l - 1) (joins rt json both l x))
          (right depth rest (omega (arith, le)))
      ∙ ap (λ k. and_loop depth k (ok (both l r, rest))) (omega arith)

  pub ReadsOr-either :
      (l r : FilterNode) → size (either l r) < fuel → ReadsOr l → ReadsAnd r → ReadsOr (either l r)
  unfolding print levels size
  ReadsOr-either l r enough left right depth rest le stops =
      let pl : List Token = print value_token filter_place l in
      let pr : List Token = print value_token and_place r in
      ap (filter depth) (append_assoc pl (word "or" ∷ pr) rest)
      ∙ left depth (word "or" ∷ (pr ++ rest)) (omega (arith, le))
          (ap (λ w. w == "and") laws.lower_or)
      ∙ loop-turns (conjunction depth) "or" either (fuel - ors l) l (pr ++ rest)
          (omega (arith, enough, ors-size l)) laws.lower_or
      ∙ ap (λ x. or_loop depth (fuel - ors l - 1) (joins rt json either l x))
          (right depth rest (omega (arith, le))
            ∙ loop-stops (unary depth) "and" both (fuel - ands r) r rest
                (omega (arith, enough, ands-size r)) stops)
      ∙ ap (λ k. or_loop depth k (ok (either l r, rest))) (omega arith)

  -- A whole filter up to its closing bracket.
  closes :
      (bracket : String) (n : FilterNode) (depth : ℕ) (rest : List Token)
      → size n < fuel
      → levels filter_place n ≤ depth
      → bracket == bracket ≡ true
      → ReadsOr n
      → expect bracket
          (filter depth ((print value_token filter_place n ++ (paren bracket ∷ [])) ++ rest))
        ≡ ok (n, rest)
  closes bracket n depth rest enough le same reads =
      ap (λ ts. expect bracket (filter depth ts))
        (append_assoc (print value_token filter_place n) (paren bracket ∷ []) rest)
      ∙ ap (expect bracket) (
          reads depth (paren bracket ∷ rest) le refl
          ∙ loop-stops (conjunction depth) "or" either (fuel - ors n) n (paren bracket ∷ rest)
              (omega (arith, enough, ors-size n)) refl)
      ∙ if_true (bracket == bracket) _ _ same

  pub unary-bracketed :
      (n : FilterNode) (depth : ℕ) (rest : List Token)
      → size n < fuel
      → suc (levels filter_place n) ≤ depth
      → ReadsOr n
      → unary depth (bracketed (print value_token filter_place n) ++ rest) ≡ ok (n, rest)
  unfolding parse_unary
  unary-bracketed n zero rest enough le reads = absurd (omega (arith, le))
  unary-bracketed n (suc depth) rest enough le reads =
      closes ")" n depth rest enough (omega (arith, le)) refl reads

  pub ReadsUnary-negated : (n : FilterNode) → size n < fuel → ReadsOr n → ReadsUnary (negated n)
  unfolding parse_unary print levels
  ReadsUnary-negated n enough reads zero rest le = absurd (omega (arith, le))
  ReadsUnary-negated n enough reads (suc depth) rest le =
      if_true (rt.lower "not" == "not") _ _ (ap (λ w. w == "not") laws.lower_not)
      ∙ ap (denied rt json) (closes ")" n depth rest enough (omega (arith, le)) refl reads)

  -- An attribute expression is read behind its path.
  unary-path :
      (path : AttrPath) (depth : ℕ) (ts : List Token)
      → PathReads rt json value_token path
      → unary (suc depth) (word (path_text path) ∷ ts)
        ≡ after_path rt json (filter depth) (ok path) ts
  unfolding parse_unary
  unary-path path depth ts (reads, other) =
      if_false (rt.lower (path_text path) == "not") _ _ other
      ∙ ap (λ p. after_path rt json (filter depth) p ts) reads

  pub ReadsUnary-value_path :
      (path : AttrPath) (n : FilterNode)
      → PathReads rt json value_token path
      → size n < fuel
      → ReadsOr n
      → ReadsUnary (value_path path n)
  unfolding print levels
  ReadsUnary-value_path path n ok_path enough reads zero rest le = absurd (omega (arith, le))
  ReadsUnary-value_path path n ok_path enough reads (suc depth) rest le =
      unary-path path depth
        (paren "[" ∷ ((print value_token filter_place n ++ (paren "]" ∷ [])) ++ rest)) ok_path
      ∙ ap (selected rt json path) (closes "]" n depth rest enough (omega (arith, le)) refl reads)

  pub ReadsUnary-present :
      (path : AttrPath) → PathReads rt json value_token path → ReadsUnary (present path)
  unfolding print levels
  ReadsUnary-present path ok_path zero rest le = absurd (omega (arith, le))
  ReadsUnary-present path ok_path (suc depth) rest le =
      unary-path path depth (word "pr" ∷ rest) ok_path ∙ rw (laws.lower_pr)

  not-pr : (op : String) → mem_text op compare_operators ≡ true → op == "pr" ≡ false
  not-pr op known = elim (Bool-cases (op == "pr")) [
    | inl same ↦
        absurd
          (cc (subst (λ x. mem_text x compare_operators ≡ true) ((eq_iff op "pr").0 same) known))
    | inr other ↦ other
  ]

  pub ReadsUnary-compares :
      (path : AttrPath) (op : String) (v : Value)
      → Printable rt json value_token (compares path op v)
      → ReadsUnary (compares path op v)
  unfolding print levels Printable
  ReadsUnary-compares path op v (ok_path, known, lower, ordered, value) zero rest le =
      absurd (omega (arith, le))
  ReadsUnary-compares path op v (ok_path, known, lower, ordered, value) (suc depth) rest le =
      unary-path path depth (word op ∷ value_token v ∷ rest) ok_path
      ∙ rw (lower, not-pr op known, known, value, ordered)
