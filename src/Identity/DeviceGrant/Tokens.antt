-- ===== src/Identity/DeviceGrant/Tokens.antt =====
-- The text of a device refresh token: what `refresh` splits is what `_token_body` put together.
use text.Mathlib.Text.{starts_with}
use Prim.Native.Char.{code}
use webbpulse_python.Base.{
  true, false, not, ◌||◌, String, ◌≡◌, ◌≢◌, ◌==◌, eq_iff, refl, ◌∙◌, ap, arith, nat_eq, if_false,
  suffixed, suffixed-empty, starts_with-suffixed,
}
use webbpulse_python.Identity.DeviceGrant.Defs.{
  split_refresh, refresh_token_text, partition_dot, has_code, both_given, device_refresh_prefix,
}

partition_dot-suffixed :
    (g s : String) → has_code b'.' g ≡ false → partition_dot (suffixed g (suffixed "." s)) ≡ (g, s)
unfolding partition_dot
partition_dot-suffixed String.[] s e = refl
partition_dot-suffixed (String.◌∷◌ c g) s e =
    if_false (nat_eq (code c) b'.') _ _ (ground (arith, e))
    ∙ ap (λ (x : String × String). (String.◌∷◌ c x.0, x.1))
        (partition_dot-suffixed g s (ground (arith, e)))

starts : (g s : String) → starts_with (refresh_token_text g s) device_refresh_prefix ≡ true
unfolding refresh_token_text
starts g s = starts_with-suffixed "wpdr_" (suffixed g (suffixed "." (suffixed s "")))

-- A refresh token splits into the grant id and the secret that it was made of, where neither is
-- empty and the id has no dot, whatever the secret holds.
pub split_refresh-refresh_token_text :
    (grant_id secret : String)
    → has_code b'.' grant_id ≡ false
    → grant_id ≢ ""
    → secret ≢ ""
    → split_refresh (refresh_token_text grant_id secret) ≡ (grant_id, secret)
unfolding split_refresh refresh_token_text
split_refresh-refresh_token_text g s dotless given given' =
    if_false (not (starts_with (refresh_token_text g s) device_refresh_prefix)) _ _
      (ap not (starts g s))
    ∙ ap both_given
        (partition_dot-suffixed g (suffixed s "") dotless ∙ ap (λ t. (g, t)) (suffixed-empty s))
    ∙ if_false (g == "" || s == "") _ _ (ground (arith, eq_iff g "", eq_iff s "", given, given'))
