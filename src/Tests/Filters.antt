-- ===== src/Tests/Filters.antt =====
-- The filter parser's theorems at concrete filters.
use webbpulse_python.Base.{◌<◌, true, false, some, List, [], ◌∷◌, ◌≡◌, ◌⊎◌, arith, refl, ok, raised}
use webbpulse_python.Tests.{demo}
use webbpulse_python.Scim.Filters.Paths.{
  AttrPath, path_text, parse_attr_path, partition, rpartition, invalid_filter,
}
use webbpulse_python.Scim.Filters.PathText.{parse_attr_path-path_text}
use webbpulse_python.Scim.Filters.Parser.{
  Token, paren, quoted, word, Value, text, boolean, null, whole, fraction, FilterNode, present,
  compares, either, both, negated, value_path, Json, parse_and, parse_or, parse_unary, value_of,
  parse_filter_tokens, max_filter_depth,
}
use webbpulse_python.Scim.Filters.Total.{parse_filter_tokens-total}
use webbpulse_python.Scim.Filters.Grammar.{Sound, nesting, parse_filter_tokens-Sound}
use webbpulse_python.Scim.Filters.Print.{filter_place, print, levels, Printable}
use webbpulse_python.Scim.Filters.RoundTrip.{LowerLaws}
use webbpulse_python.Scim.Filters.Reads.{parse_filter_tokens-print}

abbrev literals : Json
literals = record { loads = λ t. some t }

abbrev value_token : Value → Token
value_token (text s) = quoted s
value_token (boolean true) = word "true"
value_token (boolean false) = word "false"
value_token null = word "null"
value_token (whole s) = word s
value_token (fraction s) = word s

abbrev user_name : AttrPath
user_name = record { urn = ""; attribute = "userName"; sub = "" }

abbrev emails : AttrPath
emails = record { urn = "urn:x"; attribute = "emails"; sub = "value" }

abbrev example : FilterNode
example =
    both (either (compares user_name "eq" (text "ada")) (negated (present emails)))
      (value_path user_name (compares emails "gt" (whole "10")))

abbrev example_tokens : List Token
example_tokens =
    paren "("
    ∷ word "userName"
    ∷ word "eq"
    ∷ quoted "ada"
    ∷ word "or"
    ∷ word "not"
    ∷ paren "("
    ∷ word "urn:x:emails.value"
    ∷ word "pr"
    ∷ paren ")"
    ∷ paren ")"
    ∷ word "and"
    ∷ word "userName"
    ∷ paren "["
    ∷ word "urn:x:emails.value"
    ∷ word "gt"
    ∷ word "10"
    ∷ paren "]"
    ∷ []

parse_attr_path-path_text_example : parse_attr_path demo (path_text emails) ≡ ok emails
unfolding path_text
parse_attr_path-path_text_example = parse_attr_path-path_text demo emails refl refl refl

parse_filter_tokens-total_example :
    ((n : FilterNode) × (parse_filter_tokens demo literals example_tokens ≡ ok n))
    ⊎ (parse_filter_tokens demo literals example_tokens ≡ raised invalid_filter)
parse_filter_tokens-total_example = parse_filter_tokens-total demo literals example_tokens

parse_filter_tokens-Sound_example :
    Sound demo literals example × (nesting example < max_filter_depth)
unfolding parse_filter_tokens parse_or parse_and parse_unary parse_attr_path partition rpartition
    value_of
parse_filter_tokens-Sound_example =
    parse_filter_tokens-Sound demo literals example_tokens example refl

demo-LowerLaws : LowerLaws demo
demo-LowerLaws = record { lower_or = refl; lower_and = refl; lower_not = refl; lower_pr = refl }

example-Printable : Printable demo literals value_token example
unfolding Printable path_text parse_attr_path partition rpartition value_of
example-Printable = (
  (((refl, refl), refl, refl, refl, refl), (refl, refl)),
  ((refl, refl), ((refl, refl), refl, refl, refl, refl)),
)

parse_filter_tokens-print_example :
    parse_filter_tokens demo literals (print value_token filter_place example) ≡ ok example
unfolding levels
parse_filter_tokens-print_example =
    parse_filter_tokens-print demo literals value_token demo-LowerLaws example example-Printable
      (omega arith)
