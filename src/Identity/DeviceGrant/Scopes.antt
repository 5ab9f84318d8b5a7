-- ===== src/Identity/DeviceGrant/Scopes.antt =====
-- Lists of scopes that stay within the scopes that a device login may hold.
use webbpulse_python.Base.{
  true, String, Option, none, some, List, [], ◌∷◌, ◌≡◌, eq_refl, arith, refl, all_in, within_texts,
}
use webbpulse_python.Identity.DeviceGrant.Defs.{
  DeviceSettings, default_scopes, without_texts, narrowed,
}

abbrev pub Sub : List String → List String → Type 0
Sub sup xs = all_in sup xs ≡ true

Sub-cons : (y : String) (sup xs : List String) → Sub sup xs → Sub (y ∷ sup) xs
Sub-cons y sup [] e = refl
Sub-cons y sup (x ∷ xs) e = ground (arith, e, Sub-cons y sup xs)

Sub-self : (xs : List String) → Sub xs xs
Sub-self [] = refl
Sub-self (x ∷ xs) = ground (arith, eq_refl x, Sub-cons x xs xs (Sub-self xs))

Sub-within_texts : (sup held xs : List String) → Sub sup xs → Sub sup (within_texts held xs)
Sub-within_texts sup held [] e = refl
Sub-within_texts sup held (x ∷ xs) e = ground (arith, e, Sub-within_texts sup held xs)

Sub-without_texts :
    (sup explicit xs : List String) → Sub sup xs → Sub sup (without_texts explicit xs)
Sub-without_texts sup explicit [] e = refl
Sub-without_texts sup explicit (x ∷ xs) e = ground (arith, e, Sub-without_texts sup explicit xs)

pub Sub-narrowed :
    (sup : List String) (held : Option (List String)) (xs : List String)
    → Sub sup xs
    → Sub sup (narrowed held xs)
Sub-narrowed sup none xs e = e
Sub-narrowed sup (some held) xs e = Sub-within_texts sup held xs e

pub Sub-default_scopes :
    (cfg : DeviceSettings) → Sub cfg.device_scopes_supported (default_scopes cfg)
unfolding default_scopes
Sub-default_scopes cfg =
    Sub-without_texts cfg.device_scopes_supported cfg.device_explicit_scopes
      cfg.device_scopes_supported (Sub-self cfg.device_scopes_supported)
