-- ===== src/Identity/DeviceGrant/Deadline.antt =====
-- A grant's deadline never moves, and no token is issued from it on.
use mathlib.Core.Path.{subst}
use webbpulse_python.Base.{
  ℕ, true, String, some, List, [], ◌∷◌, ◌≡◌, arith, refl, sym, ◌∙◌, ap, ltb, All,
}
use webbpulse_python.Base.Assoc.{lookup, values}
use webbpulse_python.Runtime.{Runtime}
use webbpulse_python.Identity.DeviceGrants.{DeviceGrantRecord, live}
use webbpulse_python.Identity.DeviceGrant.Defs.{
  DeviceSettings, Hooks, Keys, DeviceGrantStores, TokenBody, token_body,
}
use webbpulse_python.Identity.DeviceGrant.Requests.{
  DeviceRequest, starts, approves, polls, refreshes, revokes_token, revokes_grant, revokes_all,
  purges, step, run,
}
use webbpulse_python.Identity.DeviceGrant.Rules.{Kept}
use webbpulse_python.Identity.DeviceGrant.Steps.{Opens, run-Issues}
use webbpulse_python.Base.{◌<◌, ◌-◌, ltb→lt}
use webbpulse_python.Identity.DeviceGrant.Ended.{Named, Avoids, trivial_codes, trivial-All}

module _ (rt : Runtime) (cfg : DeviceSettings) (h : Hooks) (keys : Keys) (gid : String)
    (deadline : ℕ) where
  abbrev pub Due : String → DeviceGrantRecord → Type 0
  Due k g = (g.grant_id ≡ k) × (k ≡ gid → g.expires_at ≡ deadline)

  abbrev InTime : ℕ → ℕ → TokenBody → Type 0
  InTime moment wall b =
      b.session_id ≡ gid
      → (ltb wall deadline ≡ true) × (b.refresh_token_expires_in ≡ deadline - moment)

  Due-kept : Kept Due
  Due-kept = record { rotates = λ k p n u t g fresh due. due; revokes = λ k g due. due }

  before : (g : DeviceGrantRecord) (wall : ℕ) → live g wall ≡ true → ltb wall g.expires_at ≡ true
  before g wall e = ground (arith, e)

  body-InTime :
      (moment wall : ℕ) (k next : String) (g : DeviceGrantRecord) (user : h.User)
      → Due k g
      → live g wall ≡ true
      → InTime moment wall (token_body rt cfg h keys g user next moment)
  unfolding token_body
  body-InTime moment wall k next g user (named, due) alive = λ same.
      let at : g.expires_at ≡ deadline = due (sym named ∙ same) in
      (subst (λ e. ltb wall e ≡ true) at (before g wall alive), ap (λ e. e - moment) at)

  abbrev CanOpen : DeviceRequest → Type 0
  CanOpen = Opens rt cfg h keys Due Due-kept (λ r. Unit) (trivial_codes rt cfg) InTime body-InTime

  opens : (q : DeviceRequest) → Avoids (λ k. k ≡ gid) q → CanOpen q
  unfolding token_body
  opens (polls dc c d m w) avoids =
      λ r u. ((refl, λ same. absurd (avoids same)), λ user next same. absurd (avoids same))
  opens (starts _ _ _ _ _) avoids = tt
  opens (approves _ _ _ _ _ _ _) avoids = tt
  opens (refreshes _ _ _ _) avoids = tt
  opens (revokes_token _) avoids = tt
  opens (revokes_grant _ _) avoids = tt
  opens (revokes_all _) avoids = tt
  opens (purges _) avoids = tt

  Opens-All : (qs : List DeviceRequest) → All (Avoids (λ k. k ≡ gid)) qs → All CanOpen qs
  Opens-All [] avoids = tt
  Opens-All (q ∷ qs) avoids = (opens q avoids.0, Opens-All qs avoids.1)

  -- From a grant's row on, every token of its session that a refresh issues after any sequence of
  -- requests is issued before the deadline of that row, and its refresh token is said to live
  -- until that deadline: however often it is rotated, a device session is not extended, as long as
  -- no poll draws its id for a new grant. Every row stands under its own id.
  pub session_deadline :
      (s : DeviceGrantStores) (g : DeviceGrantRecord) (qs : List DeviceRequest)
      (refresh_token client_id : String) (moment wall : ℕ) (b : TokenBody)
      → Named s.grants
      → lookup gid s.grants ≡ some g
      → g.expires_at ≡ deadline
      → All (Avoids (λ k. k ≡ gid)) qs
      → (step rt cfg h keys
          (refreshes refresh_token client_id moment wall)
          (run rt cfg h keys qs s)).0
        ≡ some b
      → b.session_id ≡ gid
      → (wall < deadline) × (b.refresh_token_expires_in ≡ deadline - moment)
  session_deadline s g qs token client_id moment wall b named found at avoid_all e same =
      let x =
        run-Issues rt cfg h keys Due Due-kept (λ r. Unit) (trivial_codes rt cfg) InTime body-InTime
          qs (refreshes token client_id moment wall) s b (Opens-All qs avoid_all) tt
          (
            (λ k x old. (named k x old, λ is. cc (old, is, found, at))),
            trivial-All (values s.codes.items),
          )
          e same in
      (ltb→lt wall deadline x.0, x.1)
