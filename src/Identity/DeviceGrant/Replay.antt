-- ===== src/Identity/DeviceGrant/Replay.antt =====
-- A refresh token that was just replaced and is presented again, within the grace window and behind
-- it.
use mathlib.Core.Path.{subst}
use webbpulse_python.Base.{
  ℕ, true, false, not, ◌&&◌, String, some, List, ◌≡◌, ◌≢◌, ◌==◌, ◌≤◌, ◌<◌, ◌+◌, eq_iff, eq_refl,
  arith, sym, ◌∙◌, ap, if_true, if_false, Result, ok, raised, All,
}
use webbpulse_python.Base.Assoc.{lookup, insert, lookup-insert}
use webbpulse_python.Runtime.{Runtime}
use webbpulse_python.Identity.DeviceGrants.{
  DeviceGrantRecord, DeviceGrants, live, get, rotate, rotated, revoke,
}
use webbpulse_python.Identity.DeviceGrant.Defs.{
  DeviceSettings, Hooks, Keys, DeviceGrantStores, TokenBody, split_refresh, load_permitted,
  successor, token_body,
}
use webbpulse_python.Identity.DeviceGrant.Login.{stamp}
use webbpulse_python.Identity.DeviceGrant.Refresh.{
  within_grace, issue, grace_or_reuse, after_rotate, refresh_grant, refresh_found, refresh,
}
use webbpulse_python.Identity.DeviceGrant.Requests.{DeviceRequest, refreshes, step, run}
use webbpulse_python.Identity.DeviceGrant.Ended.{Named, Avoids, live-unrevoked}
use webbpulse_python.Identity.DeviceGrant.Revoked.{revoke-final}

module _ (rt : Runtime) (cfg : DeviceSettings) (h : Hooks) (keys : Keys) where
  -- A refresh token that names the grant's row, presented by its client while the grant is live.
  pub record Presents (token client_id k secret : String) (g : DeviceGrantRecord) (wall : ℕ)
      (s : DeviceGrants) : Type 0 where
    pub splits : split_refresh token ≡ (k, secret)
    pub has_id : k == "" ≡ false
    pub has_client : client_id == "" ≡ false
    pub found : lookup k s ≡ some g
    pub same_client : g.client_id == client_id ≡ true
    pub is_live : live g wall ≡ true

  abbrev pub next_secret : (k secret : String) → String
  next_secret k secret = successor rt cfg h keys k (rt.sha256 secret)

  refresh-Presents :
      (token client_id k secret : String) (g : DeviceGrantRecord) (moment wall : ℕ)
      (s : DeviceGrants)
      → Presents token client_id k secret g wall s
      → refresh rt cfg h keys token client_id moment wall s
        ≡ refresh_grant rt cfg h keys k secret client_id g moment wall s
  unfolding refresh get refresh_found
  refresh-Presents token client_id k secret g moment wall s p =
      rw (p.splits, p.has_id, p.has_client, p.found)

  refresh-newest :
      (token client_id k secret : String) (g : DeviceGrantRecord) (user : h.User) (moment wall : ℕ)
      (s : DeviceGrants)
      → Presents token client_id k secret g wall s
      → g.refresh_hash == rt.sha256 secret ≡ true
      → load_permitted rt cfg h keys g.user_id ≡ some user
      → refresh rt cfg h keys token client_id moment wall s ≡ (
        ok (token_body rt cfg h keys g user (next_secret k secret) moment),
        insert k
            (rotated
              (rt.sha256 secret)
              (rt.sha256 (next_secret k secret))
              (stamp rt moment)
              moment
              g)
            s,
      )
  unfolding refresh_grant after_rotate rotate issue
  refresh-newest token client_id k secret g user moment wall s p newest allowed =
      refresh-Presents token client_id k secret g moment wall s p
      ∙ rw (
        p.same_client,
        p.is_live,
        newest,
        rotate,
        p.found,
        live-unrevoked g wall p.is_live,
        newest,
        allowed,
      )

  refresh_grant-spent :
      (k secret client_id : String) (g : DeviceGrantRecord) (moment wall : ℕ) (s : DeviceGrants)
      → g.client_id == client_id ≡ true
      → live g wall ≡ true
      → g.refresh_hash == rt.sha256 secret ≡ false
      → refresh_grant rt cfg h keys k secret client_id g moment wall s
        ≡ grace_or_reuse rt cfg h keys k g (rt.sha256 secret) (next_secret k secret) moment wall s
  unfolding refresh_grant
  refresh_grant-spent k secret client_id g moment wall s same alive spent = rw (same, alive, spent)

  refresh-graced :
      (token client_id k secret : String) (g : DeviceGrantRecord) (user : h.User) (moment wall : ℕ)
      (s : DeviceGrants)
      → Presents token client_id k secret g wall s
      → g.refresh_hash == rt.sha256 secret ≡ false
      → within_grace rt cfg h keys g (rt.sha256 secret) (next_secret k secret) moment wall ≡ true
      → load_permitted rt cfg h keys g.user_id ≡ some user
      → refresh rt cfg h keys token client_id moment wall s
        ≡ (ok (token_body rt cfg h keys g user (next_secret k secret) moment), s)
  unfolding grace_or_reuse issue
  refresh-graced token client_id k secret g user moment wall s p spent graced allowed =
      refresh-Presents token client_id k secret g moment wall s p
      ∙ refresh_grant-spent k secret client_id g moment wall s p.same_client p.is_live spent
      ∙ if_true (within_grace rt cfg h keys g (rt.sha256 secret) (next_secret k secret) moment wall)
          _ _ graced
      ∙ rw (issue, allowed)

  refresh-reused :
      (token client_id k secret : String) (g : DeviceGrantRecord) (moment wall : ℕ)
      (s : DeviceGrants)
      → Presents token client_id k secret g wall s
      → g.refresh_hash == rt.sha256 secret ≡ false
      → g.previous_refresh_hash ≡ rt.sha256 secret
      → rt.sha256 secret ≢ ""
      → g.rotated_at + 30 < moment
      → refresh rt cfg h keys token client_id moment wall s
        ≡ (raised "invalid_grant", (revoke k s).1)
  unfolding grace_or_reuse within_grace
  refresh-reused token client_id k secret g moment wall s p spent previous nonempty late =
      refresh-Presents token client_id k secret g moment wall s p
      ∙ refresh_grant-spent k secret client_id g moment wall s p.same_client p.is_live spent
      ∙ if_false
          (within_grace rt cfg h keys g (rt.sha256 secret) (next_secret k secret) moment wall) _ _
          (ground (arith, late))
      ∙ if_true (not (g.previous_refresh_hash == "") && g.previous_refresh_hash == rt.sha256 secret)
          _ _
          (ground (
            arith,
            previous,
            nonempty,
            eq_iff g.previous_refresh_hash "",
            eq_iff g.previous_refresh_hash (rt.sha256 secret),
          ))

  -- Where a live grant's newest refresh token is presented by its client, and again within the 30
  -- seconds after, for a person who may still sign in, both calls answer the same refresh token
  -- and the same claims, the second with the time that is left by then, and the second changes no
  -- row. The token's successor has another hash, no hash is empty, and the clock has started.
  pub refresh-replay :
      (token client_id k secret : String) (g : DeviceGrantRecord) (user : h.User)
      (m m' wall wall' : ℕ) (s : DeviceGrants)
      → Presents token client_id k secret g wall s
      → live g wall' ≡ true
      → g.refresh_hash ≡ rt.sha256 secret
      → load_permitted rt cfg h keys g.user_id ≡ some user
      → rt.sha256 (next_secret k secret) ≢ rt.sha256 secret
      → rt.sha256 secret ≢ ""
      → 0 < m
      → m ≤ m'
      → m' ≤ m + 30
      → ((refresh rt cfg h keys token client_id m wall s).0
          ≡ ok (token_body rt cfg h keys g user (next_secret k secret) m))
        × (refresh rt cfg h keys token client_id m' wall'
              (refresh rt cfg h keys token client_id m wall s).1
            ≡ (
              ok (token_body rt cfg h keys g user (next_secret k secret) m'),
              (refresh rt cfg h keys token client_id m wall s).1,
            ))
  unfolding within_grace token_body
  refresh-replay token client_id k secret g user m m' wall wall' s p alive newest allowed differs
        nonempty pos le within =
      let s' : DeviceGrants =
        insert k (rotated (rt.sha256 secret) (rt.sha256 (next_secret k secret)) (stamp rt m) m g)
          s in
      let g' : DeviceGrantRecord =
        rotated (rt.sha256 secret) (rt.sha256 (next_secret k secret)) (stamp rt m) m g in
      let first =
        refresh-newest token client_id k secret g user m wall s p ((eq_iff _ _).1 newest) allowed in
      let again : Presents token client_id k secret g' wall' s' = record {
        splits = p.splits;
        has_id = p.has_id;
        has_client = p.has_client;
        found = lookup-insert k k g' s ∙ if_true (k == k) _ _ (eq_refl k);
        same_client = p.same_client;
        is_live = alive;
      } in
      let second =
        refresh-graced token client_id k secret g' user m' wall' s' again
          (ground (arith, eq_iff (rt.sha256 (next_secret k secret)) (rt.sha256 secret), differs))
          (ground (
            arith,
            alive,
            eq_refl (rt.sha256 secret),
            eq_refl (rt.sha256 (next_secret k secret)),
            eq_iff (rt.sha256 secret) "",
            nonempty,
            pos,
            le,
            within,
          ))
          allowed in
      (
        ap (λ (x : Result TokenBody × DeviceGrants). x.0) first,
        subst
            (λ x.
              refresh rt cfg h keys token client_id m' wall' x
              ≡ (ok (token_body rt cfg h keys g user (next_secret k secret) m'), x))
            (sym (ap (λ (x : Result TokenBody × DeviceGrants). x.1) first)) second,
      )

  -- Where the refresh token that the grant's current one replaced is presented again more than 30
  -- seconds after that rotation, by its client while the grant is live, the grant ends: no request
  -- after any sequence of requests issues a token of the session, as long as no poll draws its id for
  -- a new grant. Every row stands under its own id, and the hash of the token is not empty and not the
  -- hash of the current one.
  pub reuse-final :
      (token client_id k secret : String) (g : DeviceGrantRecord) (moment wall : ℕ)
      (s : DeviceGrantStores) (qs : List DeviceRequest) (q : DeviceRequest) (b : TokenBody)
      → Named s.grants
      → Presents token client_id k secret g wall s.grants
      → g.refresh_hash ≢ rt.sha256 secret
      → g.previous_refresh_hash ≡ rt.sha256 secret
      → rt.sha256 secret ≢ ""
      → g.rotated_at + 30 < moment
      → All (Avoids (λ j. j ≡ k)) qs
      → Avoids (λ j. j ≡ k) q
      → (step rt cfg h keys q
          (run rt cfg h keys qs (step rt cfg h keys (refreshes token client_id moment wall) s).1)).0
        ≡ some b
      → b.session_id ≢ k
  unfolding step
  reuse-final token client_id k secret g moment wall s qs q b named p spent previous nonempty late
        avoid_all avoids e =
      let ended =
        refresh-reused token client_id k secret g moment wall s.grants p
          (ground (arith, spent, eq_iff g.refresh_hash (rt.sha256 secret))) previous nonempty
          late in
      revoke-final rt cfg h keys k s qs q b named avoid_all avoids (
        subst
          (λ grants.
            (step rt cfg h keys q (run rt cfg h keys qs (record s { grants = grants }))).0 ≡ some b)
          (ap (λ (x : Result TokenBody × DeviceGrants). x.1) ended) e)
