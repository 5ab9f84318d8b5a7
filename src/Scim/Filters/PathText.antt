-- ===== src/Scim/Filters/PathText.antt =====
-- An attribute path reads back from its text.
use text.Mathlib.Text.{starts_with}
use Prim.Native.Char.{Char, code}
use webbpulse_python.Base.{
  ℕ, true, false, not, ◌&&◌, ◌||◌, String, ◌≡◌, ◌==◌, arith, refl, sym, ◌∙◌, ap, nat_eq, if_true,
  if_false, if_rule, suffixed, suffixed-empty, ok, Bool-cases, inl, inr, eq_iff,
}
use webbpulse_python.Runtime.{Runtime}
use webbpulse_python.Scim.Filters.Paths.{
  AttrPath, path_text, dotted, is_attr_name, all_name_codes, is_name_code, has, partition,
  rpartition, checked, with_urn, parse_attr_path,
}

has-all_name_codes :
    (sep : ℕ) (s : String) → is_name_code sep ≡ false → all_name_codes s ≡ true → has sep s ≡ false
has-all_name_codes sep String.[] e names = refl
has-all_name_codes sep (String.◌∷◌ c s) e names =
    ground (arith, e, names, has-all_name_codes sep s e)

partition-has : (sep : ℕ) (s : String) → has sep s ≡ false → partition sep s ≡ (s, "")
unfolding partition
partition-has sep String.[] e = refl
partition-has sep (String.◌∷◌ c s) e =
    if_false (nat_eq (code c) sep) _ _ (ground (arith, e))
    ∙ ap (λ (x : String × String). (String.◌∷◌ c x.0, x.1))
        (partition-has sep s (ground (arith, e)))

partition-suffixed :
    (a s : String) → has b'.' a ≡ false → partition b'.' (suffixed a (suffixed "." s)) ≡ (a, s)
unfolding partition
partition-suffixed String.[] s e = refl
partition-suffixed (String.◌∷◌ c a) s e =
    if_false (nat_eq (code c) b'.') _ _ (ground (arith, e))
    ∙ ap (λ (x : String × String). (String.◌∷◌ c x.0, x.1))
        (partition-suffixed a s (ground (arith, e)))

has-suffixed : (u d : String) → has b':' (suffixed u (suffixed ":" d)) ≡ true
has-suffixed String.[] d = refl
has-suffixed (String.◌∷◌ c u) d = ground (arith, has-suffixed u d)

rpartition-suffixed :
    (u d : String) → has b':' d ≡ false → rpartition b':' (suffixed u (suffixed ":" d)) ≡ (u, d)
unfolding rpartition
rpartition-suffixed String.[] d e = if_false (has b':' d) _ _ e
rpartition-suffixed (String.◌∷◌ c u) d e =
    if_true (has b':' (suffixed u (suffixed ":" d))) _ _ (has-suffixed u d)
    ∙ ap (λ (x : String × String). (String.◌∷◌ c x.0, x.1)) (rpartition-suffixed u d e)

is_attr_name-names : (s : String) → is_attr_name s ≡ true → all_name_codes s ≡ true
is_attr_name-names String.[] e = refl
is_attr_name-names (String.◌∷◌ c String.[]) e = ground (arith, e)
is_attr_name-names (String.◌∷◌ c (String.◌∷◌ d s)) e = ground (arith, e)

has-is_attr_name :
    (sep : ℕ) (s : String) → is_name_code sep ≡ false → is_attr_name s ≡ true → has sep s ≡ false
has-is_attr_name sep s e name = has-all_name_codes sep s e (is_attr_name-names s name)

partition-dotted : (a s : String) → has b'.' a ≡ false → partition b'.' (dotted a s) ≡ (a, s)
partition-dotted a s e = elim (Bool-cases (s == "")) [
  | inl none_given ↦
      ap (partition b'.') (if_true (s == "") _ _ none_given)
      ∙ partition-has b'.' a e
      ∙ ap (λ t. (a, t)) (sym ((eq_iff s "").0 none_given))
  | inr given ↦
      ap (partition b'.') (if_false (s == "") _ _ given)
      ∙ partition-suffixed a (suffixed s "") e
      ∙ ap (λ t. (a, t)) (suffixed-empty s)
]

has-beside :
    (a s : String)
    → has b':' a ≡ false
    → has b':' s ≡ false
    → has b':' (suffixed a (suffixed "." (suffixed s ""))) ≡ false
has-beside String.[] s e e' = ap (has b':') (suffixed-empty s) ∙ e'
has-beside (String.◌∷◌ c a) s e e' = ground (arith, e, has-beside a s (ground (arith, e)) e')

has-dotted :
    (a s : String) → has b':' a ≡ false → has b':' s ≡ false → has b':' (dotted a s) ≡ false
has-dotted a s e e' =
    if_rule (λ t. has b':' t ≡ false) (s == "") _ _ (λ _. e) (λ _. has-beside a s e e')

sub-has : (s : String) → (s == "" || is_attr_name s) ≡ true → has b':' s ≡ false
sub-has s e = elim (Bool-cases (s == "")) [
  | inl none_given ↦ ap (has b':') ((eq_iff s "").0 none_given)
  | inr given ↦ has-is_attr_name b':' s refl (ground (arith, e, given))
]

checked-named :
    (urn a s : String)
    → is_attr_name a ≡ true
    → (s == "" || is_attr_name s) ≡ true
    → checked urn (a, s) ≡ ok (record { urn = urn; attribute = a; sub = s })
checked-named urn a s name sub =
    if_false (not (is_attr_name a) || (not (s == "") && not (is_attr_name s))) _ _
      (ground (arith, name, sub))

cons-given : (c : Char) (t : String) → String.◌∷◌ c t == "" ≡ false
cons-given c t = elim (Bool-cases (String.◌∷◌ c t == "")) [
  | inl same ↦ absurd (cc ((eq_iff (String.◌∷◌ c t) "").0 same))
  | inr other ↦ other
]

dotted-given : (a s : String) → is_attr_name a ≡ true → dotted a s == "" ≡ false
dotted-given String.[] s e = absurd (cc (e))
dotted-given (String.◌∷◌ c a) s e =
    if_rule (λ t. t == "" ≡ false) (s == "") _ _ (λ _. cons-given c a) (λ _. cons-given c _)

with_urn-named :
    (urn a s : String)
    → urn == "" ≡ false
    → is_attr_name a ≡ true
    → (s == "" || is_attr_name s) ≡ true
    → with_urn (urn, dotted a s) ≡ ok (record { urn = urn; attribute = a; sub = s })
with_urn-named urn a s given name sub =
    if_false (urn == "" || dotted a s == "") _ _ (ground (arith, given, dotted-given a s name))
    ∙ ap (checked urn) (partition-dotted a s (has-is_attr_name b'.' a refl name))
    ∙ checked-named urn a s name sub

-- An attribute path reads back from its text, where its attribute and its sub-attribute, if there
-- is one, match the pattern of names, and the text starts with "urn:", in any case, just where the
-- path has a schema.
pub parse_attr_path-path_text :
    (rt : Runtime) (p : AttrPath)
    → is_attr_name p.attribute ≡ true
    → (p.sub == "" || is_attr_name p.sub) ≡ true
    → starts_with (rt.lower (path_text p)) "urn:" ≡ not (p.urn == "")
    → parse_attr_path rt (path_text p) ≡ ok p
unfolding parse_attr_path path_text
parse_attr_path-path_text rt p name sub prefix = elim (Bool-cases (p.urn == "")) [
  | inl none_given ↦
      let same : path_text p ≡ dotted p.attribute p.sub = if_true (p.urn == "") _ _ none_given in
      if_false (starts_with (rt.lower (path_text p)) "urn:") _ _ (prefix ∙ ap not none_given)
      ∙ ap (λ t. checked "" (partition b'.' t)) same
      ∙ ap (checked "")
          (partition-dotted p.attribute p.sub (has-is_attr_name b'.' p.attribute refl name))
      ∙ checked-named "" p.attribute p.sub name sub
      ∙ ap (λ u. ok (record { urn = u; attribute = p.attribute; sub = p.sub }))
          (sym ((eq_iff p.urn "").0 none_given))
  | inr given ↦
      let d : String = dotted p.attribute p.sub in
      let same : path_text p ≡ suffixed p.urn (suffixed ":" d) =
        if_false (p.urn == "") _ _ given
        ∙ ap (λ t. suffixed p.urn (suffixed ":" t)) (suffixed-empty d) in
      if_true (starts_with (rt.lower (path_text p)) "urn:") _ _ (prefix ∙ ap not given)
      ∙ ap (λ t. with_urn (rpartition b':' t)) same
      ∙ ap with_urn (
          rpartition-suffixed p.urn d (
            has-dotted p.attribute p.sub (has-is_attr_name b':' p.attribute refl name)
              (sub-has p.sub sub)))
      ∙ with_urn-named p.urn p.attribute p.sub given name sub
]
