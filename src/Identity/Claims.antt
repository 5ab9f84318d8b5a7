-- ===== src/Identity/Claims.antt =====
-- The claims of a verified credential, as far as src/webbpulse/identity/scopes.py and
-- device_grant.py read them. A claim that is absent is `none`.
use webbpulse_python.Base.{ℕ, String, Option, none, some, List, []}
use webbpulse_python.Runtime.{Runtime}

pub record Claims : Type 0 where
  pub sub : String
  -- the list that the authorizer's scope text was split into
  pub scopes : Option (List String)
  pub scope : Option String
  pub tenant_id : String
  pub actor_kind : String
  pub grant : String
  pub sid : String
  -- `_auth_time` of the claim
  pub auth_time : Option ℕ

abbrev split_scope : Runtime → Option String → List String
split_scope rt none = []
split_scope rt (some scope) = rt.split scope

abbrev scopes_or : Runtime → Option (List String) → Option String → List String
scopes_or rt (some scopes) scope = scopes
scopes_or rt none scope = split_scope rt scope

unfoldable pub claims_scopes : Runtime → Claims → List String
claims_scopes rt c = scopes_or rt c.scopes c.scope
