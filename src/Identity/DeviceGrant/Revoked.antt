-- ===== src/Identity/DeviceGrant/Revoked.antt =====
-- Revoking a device grant, or all those of a person, is final.
use mathlib.Core.Path.{subst}
use webbpulse_python.Base.{
  ℕ, true, false, String, Option, none, some, List, [], ◌∷◌, ◌≡◌, ◌==◌, eq_iff, refl, sym, ◌∙◌, ap,
  if_rule, Bool-cases, inl, inr, All,
}
use webbpulse_python.Base.Assoc.{lookup, values}
use webbpulse_python.Runtime.{Runtime}
use webbpulse_python.Identity.DeviceGrants.{DeviceGrantRecord, DeviceGrants}
use webbpulse_python.Identity.DeviceGrant.Defs.{
  DeviceSettings, Hooks, Keys, DeviceGrantStores, TokenBody,
}
use webbpulse_python.Identity.DeviceGrant.Requests.{DeviceRequest, step, run}
use webbpulse_python.Base.Rows.{Rows}
use webbpulse_python.Identity.DeviceGrant.Rules.{Kept, Rows-revoke_each}
use webbpulse_python.Identity.DeviceGrants.{revoke, revoked_grant, list_for_user, revoke_each}
use webbpulse_python.Identity.DeviceGrant.Rules.{Rows-revoke}
use webbpulse_python.Base.{◌≢◌, ◌⊎◌, keep}
use webbpulse_python.Base.Assoc.{lookup-insert, if-some}
use webbpulse_python.Identity.DeviceGrants.{revoke_row, revoke_all_for_user}
use webbpulse_python.Identity.DeviceGrant.Refresh.{revoke_all}
use webbpulse_python.Identity.DeviceGrant.Ended.{Named, Avoids, Over-final}

named-kept : Kept (λ k g. g.grant_id ≡ k)
named-kept = record { rotates = λ k p n u t g fresh named. named; revokes = λ k g named. named }

-- The row at a key is revoked, if there is one.
abbrev RevokedAt : String → DeviceGrants → Type 0
RevokedAt k s = Rows (λ j g. j ≡ k → g.revoked ≡ true) s

revoked-kept : (k : String) → Kept (λ j g. j ≡ k → g.revoked ≡ true)
revoked-kept k = record {
  rotates = λ j p n u t g fresh over same. absurd (cc (over same, fresh));
  revokes = λ j g over same. refl;
}

revoke_row-RevokedAt :
    (k : String) (o : Option DeviceGrantRecord) (s : DeviceGrants)
    → lookup k s ≡ o
    → RevokedAt k (revoke_row k o s).1
revoke_row-RevokedAt k none s e j g found same = absurd (cc (found, same, e))
revoke_row-RevokedAt k (some x) s e j g found same =
    elim (if-some (k == j) (revoked_grant x) g (lookup j s)
      (sym (lookup-insert k j (revoked_grant x) s) ∙ found)) [
        | inl (here, is) ↦ sym (ap DeviceGrantRecord.revoked is)
        | inr (other, old) ↦ absurd (cc ((eq_iff k j).1 (sym same), other))
      ]

revoke-RevokedAt : (k : String) (s : DeviceGrants) → RevokedAt k (revoke k s).1
unfolding revoke
revoke-RevokedAt k s = revoke_row-RevokedAt k (lookup k s) s refl

-- A list of rows has an unrevoked one of the id.
abbrev HasLive : String → List DeviceGrantRecord → Type 0
HasLive k [] = ⊥
HasLive k (g ∷ gs) = ((g.grant_id ≡ k) × (g.revoked ≡ false)) ⊎ HasLive k gs

revoke_each-RevokedAt :
    (k : String) (gs : List DeviceGrantRecord) (s : DeviceGrants)
    → HasLive k gs
    → RevokedAt k (revoke_each gs s).1
unfolding revoke_each
revoke_each-RevokedAt k [] s has = absurd has
revoke_each-RevokedAt k (g ∷ gs) s (inl (same, unrevoked)) =
    if_rule (λ (x : ℕ × DeviceGrants). RevokedAt k x.1) g.revoked _ _
      (λ over. absurd (cc (over, unrevoked)))
      (λ _.
        Rows-revoke_each (λ j g. j ≡ k → g.revoked ≡ true) (revoked-kept k) gs
          (revoke g.grant_id s).1
          (subst (λ id. RevokedAt k (revoke id s).1) (sym same) (revoke-RevokedAt k s)))
revoke_each-RevokedAt k (g ∷ gs) s (inr later) =
    if_rule (λ (x : ℕ × DeviceGrants). RevokedAt k x.1) g.revoked _ _
      (λ _. revoke_each-RevokedAt k gs s later)
      (λ _. revoke_each-RevokedAt k gs (revoke g.grant_id s).1 later)

keep-HasLive :
    (k u : String) (s : DeviceGrants) (g : DeviceGrantRecord)
    → g.grant_id ≡ k
    → g.revoked ≡ false
    → g.user_id == u ≡ true
    → lookup k s ≡ some g
    → HasLive k (keep (λ g. g.user_id == u) (values s))
unfolding lookup
keep-HasLive k u [] g named unrevoked owned found = absurd (cc (found))
keep-HasLive k u ((j, x) ∷ s) g named unrevoked owned found = elim (Bool-cases (j == k)) [
  | inl same ↦
      let is : x ≡ g = first same in
      if_rule (HasLive k) (x.user_id == u) _ _
        (λ _.
          inl
            (ap DeviceGrantRecord.grant_id is ∙ named, ap DeviceGrantRecord.revoked is ∙ unrevoked))
        (λ other. absurd (cc (other, owned, is)))
  | inr other ↦
      if_rule (HasLive k) (x.user_id == u) _ _
        (λ _. inr (keep-HasLive k u s g named unrevoked owned (rw other at found)))
        (λ _. keep-HasLive k u s g named unrevoked owned (rw other at found))
]
  where
    first : j == k ≡ true → x ≡ g
    first same = cc (rw same at found)

module _ (u : String) (s : DeviceGrants) where
  -- The grants of the person.
  abbrev pub Owned : String → Type 0
  Owned k = (g : DeviceGrantRecord) × (lookup k s ≡ some g) × (g.user_id ≡ u)

  revoke_all-RevokedAt : (k : String) → Named s → Owned k → RevokedAt k (revoke_all u s).1
  unfolding revoke_all revoke_all_for_user list_for_user
  revoke_all-RevokedAt k named (g, found, owned) = elim (Bool-cases g.revoked) [
    | inl over ↦
        Rows-revoke_each (λ j x. j ≡ k → x.revoked ≡ true) (revoked-kept k) (list_for_user u s) s
          (λ j x at same. cc (at, same, found, over))
    | inr unrevoked ↦
        revoke_each-RevokedAt k (list_for_user u s) s
          (keep-HasLive k u s g (named k g found) unrevoked ((eq_iff g.user_id u).1 owned) found)
  ]

module _ (rt : Runtime) (cfg : DeviceSettings) (h : Hooks) (keys : Keys) where
  -- Once a grant is revoked, no request after any sequence of requests issues a token of its
  -- session, as long as no poll draws its id for a new grant. Every row stands under its own id.
  pub revoke-final :
      (gid : String) (s : DeviceGrantStores) (qs : List DeviceRequest) (q : DeviceRequest)
      (b : TokenBody)
      → Named s.grants
      → All (Avoids (λ k. k ≡ gid)) qs
      → Avoids (λ k. k ≡ gid) q
      → (step rt cfg h keys q
          (run rt cfg h keys qs (record s { grants = (revoke gid s.grants).1 }))).0
        ≡ some b
      → b.session_id ≢ gid
  revoke-final gid s qs q b named avoid_all avoids e =
      Over-final rt cfg h keys (λ k. k ≡ gid) qs q (record s { grants = (revoke gid s.grants).1 }) b
        (λ k g found. (
          Rows-revoke (λ k g. g.grant_id ≡ k) named-kept gid s.grants named k g found,
          revoke-RevokedAt gid s.grants k g found,
        ))
        avoid_all avoids e

  -- Once a person's grants are all revoked, no request after any sequence of requests issues a
  -- token of one of them, as long as no poll draws the id of one for a new grant. Every row stands
  -- under its own id.
  pub revoke_all-final :
      (u : String) (s : DeviceGrantStores) (qs : List DeviceRequest) (q : DeviceRequest)
      (b : TokenBody)
      → Named s.grants
      → All (Avoids (Owned u s.grants)) qs
      → Avoids (Owned u s.grants) q
      → (step rt cfg h keys q
          (run rt cfg h keys qs (record s { grants = (revoke_all u s.grants).1 }))).0
        ≡ some b
      → ¬ Owned u s.grants b.session_id
  unfolding revoke_all revoke_all_for_user
  revoke_all-final u s qs q b named avoid_all avoids e =
      Over-final rt cfg h keys (Owned u s.grants) qs q
        (record s { grants = (revoke_all u s.grants).1 }) b
        (λ k g found.
          (all_named k g found, λ old. revoke_all-RevokedAt u s.grants k named old k g found refl))
        avoid_all avoids e
    where
      all_named : Named (revoke_all u s.grants).1
      all_named =
          Rows-revoke_each (λ k g. g.grant_id ≡ k) named-kept (list_for_user u s.grants) s.grants
            named
