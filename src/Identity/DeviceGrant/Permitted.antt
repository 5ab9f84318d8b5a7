-- ===== src/Identity/DeviceGrant/Permitted.antt =====
-- No token of the device grant holds a scope that a device login may not hold.
use webbpulse_python.Base.{all_in, ℕ, true, String, some, List, [], ◌∷◌, ◌≡◌, refl, All}
use webbpulse_python.Base.Each.{Each}
use webbpulse_python.Runtime.{Runtime}
use webbpulse_python.Identity.DeviceCodes.{DeviceCodeRecord}
use webbpulse_python.Identity.DeviceGrants.{DeviceGrantRecord, live}
use webbpulse_python.Identity.DeviceGrant.Defs.{
  DeviceSettings, Hooks, Keys, DeviceGrantStores, TokenBody, token_body, held_scopes,
}
use webbpulse_python.Identity.DeviceGrant.Requests.{
  DeviceRequest, starts, approves, polls, refreshes, revokes_token, revokes_grant, revokes_all,
  purges, step, run,
}
use webbpulse_python.Base.Rows.{Rows}
use webbpulse_python.Identity.DeviceGrant.Rules.{Kept}
use webbpulse_python.Identity.DeviceGrant.Scopes.{Sub, Sub-narrowed}
use webbpulse_python.Identity.DeviceGrant.Steps.{KeptCodes, Opens, run-Both, run-Issues}

-- Every row of both tables holds supported scopes only.
pub record Scoped (sup : List String) (s : DeviceGrantStores) : Type 0 where
  pub grants : Rows (λ k g. Sub sup g.scopes) s.grants
  pub codes : Each (λ r. Sub sup r.scopes) s.codes.items

module _ (rt : Runtime) (cfg : DeviceSettings) (h : Hooks) (keys : Keys) where
  abbrev sup : List String
  sup = cfg.device_scopes_supported

  abbrev ScopedGrant : String → DeviceGrantRecord → Type 0
  ScopedGrant k g = Sub sup g.scopes

  abbrev ScopedCode : DeviceCodeRecord → Type 0
  ScopedCode r = Sub sup r.scopes

  abbrev ScopedBody : ℕ → ℕ → TokenBody → Type 0
  ScopedBody moment wall b = Sub sup b.scope

  grants-kept : Kept ScopedGrant
  grants-kept = record { rotates = λ k p n u t g fresh sub. sub; revokes = λ k g sub. sub }

  codes-kept : KeptCodes rt cfg ScopedCode
  codes-kept = record {
    polled = λ r n sub. sub;
    slowed = λ r n sub. sub;
    fresh = λ dc uc c scopes moment sub. sub;
    narrows = λ st u held at r x subr subx. Sub-narrowed sup held x.scopes subx;
    empties = λ st u at r sub. refl;
  }

  body-ScopedBody :
      (moment wall : ℕ) (k next : String) (g : DeviceGrantRecord) (user : h.User)
      → ScopedGrant k g
      → live g wall ≡ true
      → ScopedBody moment wall (token_body rt cfg h keys g user next moment)
  unfolding token_body
  body-ScopedBody moment wall k next g user sub alive =
      Sub-narrowed sup (held_scopes rt cfg h keys user) g.scopes sub

  opens :
      (q : DeviceRequest)
      → Opens rt cfg h keys ScopedGrant grants-kept ScopedCode codes-kept ScopedBody body-ScopedBody
          q
  unfolding token_body
  opens (polls dc c d m w) =
      λ r sub. (sub, λ user next. Sub-narrowed sup (held_scopes rt cfg h keys user) r.scopes sub)
  opens (starts _ _ _ _ _) = tt
  opens (approves _ _ _ _ _ _ _) = tt
  opens (refreshes _ _ _ _) = tt
  opens (revokes_token _) = tt
  opens (revokes_grant _ _) = tt
  opens (revokes_all _) = tt
  opens (purges _) = tt

  Opens-All :
      (qs : List DeviceRequest)
      → All
          (Opens rt cfg h keys ScopedGrant grants-kept ScopedCode codes-kept ScopedBody
            body-ScopedBody)
          qs
  Opens-All [] = tt
  Opens-All (q ∷ qs) = (opens q, Opens-All qs)

  -- Where both tables hold supported scopes only, they still do after any sequence of requests to
  -- the device grant.
  pub run-Scoped :
      (qs : List DeviceRequest) (s : DeviceGrantStores)
      → Scoped cfg.device_scopes_supported s
      → Scoped cfg.device_scopes_supported (run rt cfg h keys qs s)
  run-Scoped qs s scoped =
      let both =
        run-Both rt cfg h keys ScopedGrant grants-kept ScopedCode codes-kept ScopedBody
          body-ScopedBody qs s (Opens-All qs) (scoped.grants, scoped.codes) in
      record { grants = both.0; codes = both.1 }

  -- Where both tables hold supported scopes only, every access token that a request issues after
  -- any sequence of requests holds supported scopes only, also where the scopes were asked for,
  -- approved, or narrowed to what the user holds.
  pub issued_scope-Sub :
      (qs : List DeviceRequest) (q : DeviceRequest) (s : DeviceGrantStores) (b : TokenBody)
      → Scoped cfg.device_scopes_supported s
      → (step rt cfg h keys q (run rt cfg h keys qs s)).0 ≡ some b
      → all_in cfg.device_scopes_supported b.scope ≡ true
  issued_scope-Sub qs q s b scoped e =
      run-Issues rt cfg h keys ScopedGrant grants-kept ScopedCode codes-kept ScopedBody
        body-ScopedBody qs q s b (Opens-All qs) (opens q) (scoped.grants, scoped.codes) e
