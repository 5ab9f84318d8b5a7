-- ===== src/RateLimit/Classes.antt =====
-- `LimitClass`, `classify` and the exemptions of `rate_limit_middleware`.
use text.Mathlib.Text.{starts_with}
use Prim.Native.Char.{code}
use webbpulse_python.Base.{
  ℕ, Bool, true, false, not, ◌&&◌, ◌||◌, String, Option, none, some, List, [], ◌∷◌, map, ◌==◌,
  nat_eq, if◌then◌else◌, or_text, mem_text, any,
}
use webbpulse_python.Runtime.{Runtime}

pub record LimitClass : Type 0 where
  pub name : String
  pub limit : ℕ
  pub window_seconds : ℕ
  pub methods : Option (List String)
  pub path_prefixes : Option (List String)
  pub exempt_paths : List String

-- `text.rstrip("/")`
unfoldable pub rstrip_slash : String → String
rstrip_slash String.[] = String.[]
rstrip_slash (String.◌∷◌ c s) =
    let rest = rstrip_slash s in
    if nat_eq (code c) b'/' && rest == "" then String.[] else String.◌∷◌ c rest

unfoldable pub normalise_path : String → String
unfolding rstrip_slash
normalise_path path = or_text (rstrip_slash path) path

-- `text + "/"`
unfoldable pub with_slash : String → String
with_slash String.[] = "/"
with_slash (String.◌∷◌ c s) = String.◌∷◌ c (with_slash s)

unfoldable pub under_prefix : String → String → Bool
unfolding with_slash
under_prefix path prefix = path == prefix || starts_with path (with_slash prefix)

-- `methods is None or method.upper() in {m.upper() for m in methods}`
abbrev pub method_fits : Runtime → Option (List String) → String → Bool
method_fits rt none method = true
method_fits rt (some methods) method = mem_text (rt.upper method) (map rt.upper methods)

abbrev pub prefix_fits : Option (List String) → String → Bool
prefix_fits none path = true
prefix_fits (some prefixes) path = any (λ p. under_prefix path (normalise_path p)) prefixes

unfoldable pub matches : Runtime → LimitClass → String → String → Bool
matches rt c method path =
    let normalised = normalise_path path in
    if mem_text normalised (map normalise_path c.exempt_paths)
    then false
    else if not (method_fits rt c.methods method)
    then false
    else prefix_fits c.path_prefixes normalised

-- `none` is the `LookupError`.
unfoldable pub classify : Runtime → String → String → List LimitClass → Option LimitClass
classify rt method path [] = none
classify rt method path (c ∷ cs) =
    let rest = classify rt method path cs in if matches rt c method path then some c else rest

-- `_exempt` of `rate_limit_middleware`, over the sets that it builds from its arguments.
unfoldable pub exempt :
    Runtime → (exempt_methods exempt_paths exempt_prefixes : List String) → String → String → Bool
exempt rt exempt_methods exempt_paths exempt_prefixes method path =
    if mem_text (rt.upper method) (map rt.upper exempt_methods)
    then true
    else let normalised = normalise_path path in
      if mem_text normalised (map normalise_path exempt_paths)
      then true
      else any (λ p. under_prefix normalised (normalise_path p)) exempt_prefixes
