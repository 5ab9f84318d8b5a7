-- ===== src/Scim/Filters/Parser.antt =====
-- `_Parser` over the tokens of a filter. The levels of nesting that are left stand for the depth
-- counter, and each loop has fuel for one round more than there are tokens.
use Prim.Native.Char.{code}
use webbpulse_python.Base.{
  ℕ, zero, suc, Bool, true, false, not, ◌&&◌, ◌||◌, String, Option, none, some, List, [], ◌∷◌, ◌==◌,
  nat_eq, if◌then◌else◌, mem_text, Result, ok, raised, length,
}
use webbpulse_python.Runtime.{Runtime}
use webbpulse_python.Scim.Filters.Paths.{AttrPath, parse_attr_path, invalid_filter, is_digit}

-- A token by the group of the pattern that matched it.
pub data Token : Type 0 where
  paren quoted word : String → Token

-- A comparison value; a number by its literal, which `int` or `float` reads.
pub data Value : Type 0 where
  text : String → Value
  boolean : Bool → Value
  null : Value
  whole fraction : String → Value

pub data FilterNode : Type 0 where
  present : AttrPath → FilterNode
  compares : (path : AttrPath) (op : String) (value : Value) → FilterNode
  both either : (left right : FilterNode) → FilterNode
  negated : FilterNode → FilterNode
  value_path : (path : AttrPath) (inner : FilterNode) → FilterNode

abbrev pub compare_operators : List String
compare_operators = "eq" ∷ "ne" ∷ "co" ∷ "sw" ∷ "ew" ∷ "gt" ∷ "lt" ∷ "ge" ∷ "le" ∷ []

abbrev pub ordering_operators : List String
ordering_operators = "gt" ∷ "lt" ∷ "ge" ∷ "le" ∷ []

abbrev pub max_filter_depth : ℕ
max_filter_depth = 32

-- The error of a loop that runs out of fuel, which the source does not have.
abbrev pub out_of_fuel : String
out_of_fuel = "out of fuel"

-- `json.loads` of a string literal, `none` where it raises.
pub record Json : Type 0 where
  pub loads : String → Option String

-- `\d*` and what follows it
abbrev pub behind_digits : String → String
behind_digits String.[] = String.[]
behind_digits (String.◌∷◌ c s) =
    let rest = behind_digits s in if is_digit (code c) then rest else String.◌∷◌ c s

-- `\d+` at the head, and what follows it
abbrev pub some_digits : String → Option String
some_digits String.[] = none
some_digits (String.◌∷◌ c s) = if is_digit (code c) then some (behind_digits s) else none

-- `[+-]?\d+` to the end
abbrev pub is_exponent : String → Bool
is_exponent String.[] = false
is_exponent (String.◌∷◌ c s) =
    if nat_eq (code c) b'+' || nat_eq (code c) b'-'
    then ends (some_digits s)
    else ends (some_digits (String.◌∷◌ c s))
  where
    ends : Option String → Bool
    ends none = false
    ends (some rest) = rest == ""

-- `(?:[eE][+-]?\d+)?` to the end
abbrev pub is_tail : String → Bool
is_tail String.[] = true
is_tail (String.◌∷◌ c s) = (nat_eq (code c) b'e' || nat_eq (code c) b'E') && is_exponent s

abbrev pub fraction_tail : Option String → Bool
fraction_tail none = false
fraction_tail (some rest) = is_tail rest

-- `(?:\.\d+)?(?:[eE][+-]?\d+)?` to the end
abbrev pub behind_whole : Option String → Bool
behind_whole none = false
behind_whole (some String.[]) = true
behind_whole (some (String.◌∷◌ c s)) =
    if nat_eq (code c) b'.' then fraction_tail (some_digits s) else is_tail (String.◌∷◌ c s)

-- `_NUMBER.fullmatch`
abbrev pub is_number : String → Bool
is_number String.[] = false
is_number (String.◌∷◌ c s) =
    if nat_eq (code c) b'-'
    then behind_whole (some_digits s)
    else behind_whole (some_digits (String.◌∷◌ c s))

-- `any(char in text for char in ".eE")`
abbrev pub is_fraction : String → Bool
is_fraction String.[] = false
is_fraction (String.◌∷◌ c s) =
    nat_eq (code c) b'.' || nat_eq (code c) b'e' || nat_eq (code c) b'E' || is_fraction s

abbrev pub Parsed : Type 0 → Type 0
Parsed A = Result (A × List Token)

-- The head of the tokens is a bracket of this text.
abbrev pub is_paren : String → List Token → Bool
is_paren value (paren t ∷ ts) = t == value
is_paren value _ = false

abbrev pub rest_of : List Token → List Token
rest_of [] = []
rest_of (t ∷ ts) = ts

-- `_expect`
abbrev pub expect : {A : Type 0} → String → Parsed A → Parsed A
expect value (raised code) = raised code
expect value (ok (a, ts)) = if is_paren value ts then ok (a, rest_of ts) else raised invalid_filter

module _ (rt : Runtime) (json : Json) where
  -- `_keyword`: whether the head of the tokens is the keyword.
  abbrev pub is_keyword : String → List Token → Bool
  is_keyword w (word t ∷ ts) = rt.lower t == w
  is_keyword w _ = false

  abbrev pub loaded : Option String → Result Value
  loaded none = raised invalid_filter
  loaded (some s) = ok (text s)

  abbrev pub word_value : (lowered t : String) → Result Value
  word_value lowered t =
      if lowered == "true" || lowered == "false"
      then ok (boolean (lowered == "true"))
      else if lowered == "null"
      then ok null
      else if is_number t
      then ok (if is_fraction t then fraction t else whole t)
      else raised invalid_filter

  -- `_value`
  unfoldable pub value_of : Token → Result Value
  value_of (quoted t) = loaded (json.loads t)
  value_of (word t) = word_value (rt.lower t) t
  value_of (paren t) = raised invalid_filter

  abbrev pub unordered : Value → Bool
  unordered null = true
  unordered (boolean b) = true
  unordered _ = false

  abbrev pub comparison :
      (path : AttrPath) (op : String) → List Token → Result Value → Parsed FilterNode
  comparison path op ts (raised code) = raised code
  comparison path op ts (ok v) =
      if mem_text op ordering_operators && unordered v
      then raised invalid_filter
      else ok (compares path op v, ts)

  abbrev pub compared : (path : AttrPath) (op : String) → List Token → Parsed FilterNode
  compared path op [] = raised invalid_filter
  compared path op (t ∷ ts) = comparison path op ts (value_of t)

  -- An attribute expression behind its path.
  abbrev pub operation : (path : AttrPath) → List Token → Parsed FilterNode
  operation path (word t ∷ ts) =
      if not (rt.lower t == "pr") && not (mem_text (rt.lower t) compare_operators)
      then raised invalid_filter
      else if rt.lower t == "pr"
      then ok (present path, ts)
      else compared path (rt.lower t) ts
  operation path _ = raised invalid_filter

  abbrev pub selected : (path : AttrPath) → Parsed FilterNode → Parsed FilterNode
  selected path (raised code) = raised code
  selected path (ok (inner, ts)) = ok (value_path path inner, ts)

  abbrev pub denied : Parsed FilterNode → Parsed FilterNode
  denied (raised code) = raised code
  denied (ok (inner, ts)) = ok (negated inner, ts)

  abbrev pub joins :
      (FilterNode → FilterNode → FilterNode) → FilterNode → Parsed FilterNode → Parsed FilterNode
  joins node left (raised code) = raised code
  joins node left (ok (right, ts)) = ok (node left right, ts)

  -- The parsers of one level, over the parser of the level below.
  module _ (below : List Token → Parsed FilterNode) where
    -- The loop of `_or` and `_and`, over its keyword and its node.
    abbrev pub loop :
        (w : String) (node : FilterNode → FilterNode → FilterNode)
        → ℕ
        → Parsed FilterNode
        → Parsed FilterNode
    loop w node fuel (raised code) = raised code
    loop w node zero (ok (left, ts)) = raised out_of_fuel
    loop w node (suc fuel) (ok (left, ts)) =
        let more = loop w node fuel (joins node left (below (rest_of ts))) in
        if is_keyword w ts then more else ok (left, ts)

    -- `_and` and `_or`, with fuel for the rounds of their loops.
    unfoldable pub parse_and : ℕ → List Token → Parsed FilterNode
    parse_and fuel ts = loop "and" both fuel (below ts)

  unfoldable pub parse_or : (List Token → Parsed FilterNode) → ℕ → List Token → Parsed FilterNode
  parse_or below fuel ts = loop (parse_and below fuel) "or" either fuel (parse_and below fuel ts)

  -- The parsers of one level of nesting, over that of a whole filter one level deeper.
  module _ (deeper : List Token → Parsed FilterNode) where
    abbrev pub after_path : Result AttrPath → List Token → Parsed FilterNode
    after_path (raised code) ts = raised code
    after_path (ok path) ts =
        if is_paren "[" ts
        then selected path (expect "]" (deeper (rest_of ts)))
        else operation path ts

    -- `_attribute_expression`
    abbrev pub attribute_expression : List Token → Parsed FilterNode
    attribute_expression (word t ∷ ts) = after_path (parse_attr_path rt t) ts
    attribute_expression _ = raised invalid_filter

    -- `_unary` within the depth
    abbrev pub unary_within : List Token → Parsed FilterNode
    unary_within ts =
        if is_keyword "not" ts
        then (if is_paren "(" (rest_of ts)
            then denied (expect ")" (deeper (rest_of (rest_of ts))))
            else raised invalid_filter)
        else if is_paren "(" ts
        then expect ")" (deeper (rest_of ts))
        else attribute_expression ts

  -- `_unary`, by the levels of nesting that are left
  unfoldable pub parse_unary : (levels fuel : ℕ) → List Token → Parsed FilterNode
  unfolding parse_or
  parse_unary zero fuel ts = raised invalid_filter
  parse_unary (suc levels) fuel ts = unary_within (parse_or (parse_unary levels fuel) fuel) ts

  abbrev pub finished : Parsed FilterNode → Result FilterNode
  finished (raised code) = raised code
  finished (ok (node, [])) = ok node
  finished (ok (node, t ∷ ts)) = raised invalid_filter

  -- `parse`
  unfoldable pub parse_filter_tokens : List Token → Result FilterNode
  parse_filter_tokens ts =
      finished (parse_or (parse_unary max_filter_depth (suc (length ts))) (suc (length ts)) ts)
