-- ===== src/Identity/DeviceGrant/Ended.antt =====
-- Where grants have ended, no request issues a token of theirs again.
use mathlib.Core.Path.{subst}
use webbpulse_python.Base.{ℕ, true, false, String, some, List, [], ◌∷◌, ◌≡◌, arith, refl, All}
use webbpulse_python.Base.Assoc.{lookup, values}
use webbpulse_python.Runtime.{Runtime}
use webbpulse_python.Identity.DeviceCodes.{DeviceCodeRecord}
use webbpulse_python.Identity.DeviceGrants.{DeviceGrantRecord, DeviceGrants, live}
use webbpulse_python.Identity.DeviceGrant.Defs.{
  DeviceSettings, Hooks, Keys, DeviceGrantStores, TokenBody, token_body,
}
use webbpulse_python.Identity.DeviceGrant.Requests.{
  DeviceRequest, starts, approves, polls, refreshes, revokes_token, revokes_grant, revokes_all,
  purges, step, run,
}
use webbpulse_python.Base.Rows.{Rows}
use webbpulse_python.Identity.DeviceGrant.Rules.{Kept}
use webbpulse_python.Identity.DeviceGrant.Steps.{KeptCodes, Opens, run-Issues}

-- Every row stands under its own grant id.
abbrev pub Named : DeviceGrants → Type 0
Named s = (k : String) (g : DeviceGrantRecord) → lookup k s ≡ some g → g.grant_id ≡ k

-- A request that does not draw one of the ids as that of a new grant.
abbrev pub Avoids : (String → Type 0) → DeviceRequest → Type 0
Avoids Old (polls device_code client_id d moment wall) = ¬ Old d.grant_id
Avoids Old _ = Unit

pub trivial_codes : (rt : Runtime) (cfg : DeviceSettings) → KeptCodes rt cfg (λ r. Unit)
trivial_codes rt cfg = record {
  polled = λ r n u. tt;
  slowed = λ r n u. tt;
  fresh = λ dc uc c scopes moment sub. tt;
  narrows = λ st u held at r x p q. tt;
  empties = λ st u at r p. tt;
}

pub trivial-All : (rs : List DeviceCodeRecord) → All {0, 0} (λ r. Unit) rs
trivial-All [] = tt
trivial-All (r ∷ rs) = (tt, trivial-All rs)

pub live-unrevoked : (g : DeviceGrantRecord) (wall : ℕ) → live g wall ≡ true → g.revoked ≡ false
live-unrevoked g wall e = ground (arith, e)

module _ (rt : Runtime) (cfg : DeviceSettings) (h : Hooks) (keys : Keys)
    (Old : String → Type 0) where
  abbrev pub Over : String → DeviceGrantRecord → Type 0
  Over k g = (g.grant_id ≡ k) × (Old k → g.revoked ≡ true)

  abbrev pub OtherBody : ℕ → ℕ → TokenBody → Type 0
  OtherBody moment wall b = ¬ Old b.session_id

  Over-kept : Kept Over
  Over-kept = record {
    rotates = λ k p n u t g fresh over. (over.0, λ old. absurd (cc (over.1 old, fresh)));
    revokes = λ k g over. (over.0, λ old. refl);
  }

  body-OtherBody :
      (moment wall : ℕ) (k next : String) (g : DeviceGrantRecord) (user : h.User)
      → Over k g
      → live g wall ≡ true
      → OtherBody moment wall (token_body rt cfg h keys g user next moment)
  unfolding token_body
  body-OtherBody moment wall k next g user (named, over) alive =
      λ old. absurd (cc (over (subst Old named old), live-unrevoked g wall alive))

  abbrev CanOpen : DeviceRequest → Type 0
  CanOpen =
      Opens rt cfg h keys Over Over-kept (λ r. Unit) (trivial_codes rt cfg) OtherBody body-OtherBody

  opens : (q : DeviceRequest) → Avoids Old q → CanOpen q
  unfolding token_body
  opens (polls dc c d m w) avoids = λ r u. ((refl, λ old. absurd (avoids old)), λ user next. avoids)
  opens (starts _ _ _ _ _) avoids = tt
  opens (approves _ _ _ _ _ _ _) avoids = tt
  opens (refreshes _ _ _ _) avoids = tt
  opens (revokes_token _) avoids = tt
  opens (revokes_grant _ _) avoids = tt
  opens (revokes_all _) avoids = tt
  opens (purges _) avoids = tt

  Opens-All : (qs : List DeviceRequest) → All (Avoids Old) qs → All CanOpen qs
  Opens-All [] avoids = tt
  Opens-All (q ∷ qs) avoids = (opens q avoids.0, Opens-All qs avoids.1)

  -- Where every row stands under its own id, and the old ones are revoked, no token of an old
  -- grant is issued any more.
  pub Over-final :
      (qs : List DeviceRequest) (q : DeviceRequest) (s : DeviceGrantStores) (b : TokenBody)
      → Rows Over s.grants
      → All (Avoids Old) qs
      → Avoids Old q
      → (step rt cfg h keys q (run rt cfg h keys qs s)).0 ≡ some b
      → ¬ Old b.session_id
  Over-final qs q s b rows avoid_all avoids e =
      run-Issues rt cfg h keys Over Over-kept (λ r. Unit) (trivial_codes rt cfg) OtherBody
        body-OtherBody qs q s b (Opens-All qs avoid_all) (opens q avoids)
        (rows, trivial-All (values s.codes.items)) e
