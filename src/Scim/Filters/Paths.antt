-- ===== src/Scim/Filters/Paths.antt =====
-- Attribute paths: `AttrPath`, `parse_attr_path`, and the pattern of an attribute's name.
use text.Mathlib.Text.{starts_with}
use Prim.Native.Char.{code}
use webbpulse_python.Base.{
  ℕ, Bool, true, false, not, ◌&&◌, ◌||◌, String, [], ◌∷◌, ◌==◌, leb, nat_eq, if◌then◌else◌, joined,
  Result, ok, raised,
}
use webbpulse_python.Runtime.{Runtime}

pub record AttrPath : Type 0 where
  pub urn : String
  pub attribute : String
  pub sub : String

-- `ScimError.invalid_filter`
abbrev pub invalid_filter : String
invalid_filter = "invalidFilter"

abbrev pub dotted : (attribute sub : String) → String
dotted attribute sub = if sub == "" then attribute else joined (attribute ∷ "." ∷ sub ∷ [])

-- `__str__`
unfoldable pub path_text : AttrPath → String
path_text p =
    if p.urn == ""
    then dotted p.attribute p.sub
    else joined (p.urn ∷ ":" ∷ dotted p.attribute p.sub ∷ [])

abbrev pub within : (low high n : ℕ) → Bool
within low high n = leb low n && leb n high

-- `[A-Za-z]` and `[0-9]`, of a character's code
abbrev pub is_letter : ℕ → Bool
is_letter n = within 65 90 n || within 97 122 n

abbrev pub is_digit : ℕ → Bool
is_digit n = within 48 57 n

-- `[A-Za-z0-9_$\-]`
abbrev pub is_name_code : ℕ → Bool
is_name_code n = is_letter n || is_digit n || nat_eq n b'_' || nat_eq n b'$' || nat_eq n b'-'

abbrev pub all_name_codes : String → Bool
all_name_codes String.[] = true
all_name_codes (String.◌∷◌ c s) = is_name_code (code c) && all_name_codes s

-- `[A-Za-z][A-Za-z0-9_$\-]*`
abbrev pub is_word : String → Bool
is_word String.[] = false
is_word (String.◌∷◌ c s) = is_letter (code c) && all_name_codes s

-- `_ATTR_NAME.fullmatch`
abbrev pub is_attr_name : String → Bool
is_attr_name String.[] = false
is_attr_name (String.◌∷◌ c s) = if nat_eq (code c) b'$' then is_word s else is_word (String.◌∷◌ c s)

-- `text.partition(sep)`, by the separator's code: what stands before its first occurrence and
-- behind it.
unfoldable pub partition : ℕ → String → String × String
partition sep String.[] = ("", "")
partition sep (String.◌∷◌ c s) =
    let (before, after) = partition sep s in
    if nat_eq (code c) sep then ("", s) else (String.◌∷◌ c before, after)

abbrev pub has : ℕ → String → Bool
has sep String.[] = false
has sep (String.◌∷◌ c s) = nat_eq (code c) sep || has sep s

-- `text.rpartition(sep)`, without the separator: around its last occurrence, or nothing and the
-- text.
unfoldable pub rpartition : ℕ → String → String × String
rpartition sep String.[] = ("", "")
rpartition sep (String.◌∷◌ c s) =
    let (before, after) = rpartition sep s in
    if has sep s
    then (String.◌∷◌ c before, after)
    else if nat_eq (code c) sep
    then ("", s)
    else ("", String.◌∷◌ c s)

abbrev pub checked : (urn : String) → String × String → Result AttrPath
checked urn (attribute, sub) =
    if not (is_attr_name attribute) || (not (sub == "") && not (is_attr_name sub))
    then raised invalid_filter
    else ok (record { urn = urn; attribute = attribute; sub = sub })

abbrev pub with_urn : String × String → Result AttrPath
with_urn (urn, rest) =
    if urn == "" || rest == "" then raised invalid_filter else checked urn (partition b'.' rest)

unfoldable pub parse_attr_path : Runtime → String → Result AttrPath
unfolding partition rpartition
parse_attr_path rt text =
    if starts_with (rt.lower text) "urn:"
    then with_urn (rpartition b':' text)
    else checked "" (partition b'.' text)
