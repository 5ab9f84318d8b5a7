-- ===== src/Identity/DeviceGrant/Rules.antt =====
-- Rules for proofs about every row of the grants table and every token that a request issues: a
-- property of rows that rotating and revoking keep, and a property of tokens that follows from it.
use webbpulse_python.Base.{
  ℕ, Bool, true, false, not, ◌&&◌, ◌||◌, String, Option, none, some, List, [], ◌∷◌, ◌≡◌, ◌==◌,
  arith, refl, if_rule, Result, ok, raised,
}
use webbpulse_python.Base.Assoc.{lookup, remove}
use webbpulse_python.Base.Rows.{Rows, Rows-insert, Rows-remove}
use webbpulse_python.Runtime.{Runtime}
use webbpulse_python.Identity.DeviceGrants.{
  DeviceGrantRecord, DeviceGrants, live, get, rotate, rotated, rotate_row, revoke_row, revoke,
  revoked_grant, revoke_each, delete, delete_each,
}
use webbpulse_python.Identity.DeviceGrant.Defs.{
  DeviceSettings, Hooks, Keys, TokenBody, split_refresh, load_permitted, successor, token_body,
}
use webbpulse_python.Identity.DeviceGrant.Login.{stamp}
use webbpulse_python.Identity.DeviceGrant.Refresh.{
  within_grace, issue, grace_or_reuse, reloaded, after_rotate, refresh_grant, refresh_found,
  refresh, revoke_token, revoke_grant, names_token, revoke_named, revoke_owned, issue_for,
}

-- What a result holds, if it is a value.
abbrev pub Holds {ℓ κ} : {A : Type ℓ} → (A → Type κ) → Result A → Type κ
Holds B (ok b) = B b
Holds B (raised code) = Unit

-- A property of rows that neither rotating nor revoking loses.
pub record Kept (R : String → DeviceGrantRecord → Type 0) : Type 0 where
  pub rotates :
      (k p n u : String) (t : ℕ) (g : DeviceGrantRecord)
      → g.revoked ≡ false
      → R k g
      → R k (rotated p n u t g)
  pub revokes : (k : String) (g : DeviceGrantRecord) → R k g → R k (revoked_grant g)

or-false_left : (a b : Bool) → (a || b) ≡ false → a ≡ false
or-false_left a b e = ground arith

module _ (R : String → DeviceGrantRecord → Type 0) (kept : Kept R) where
  rotate_row-Rows :
      (k p n u : String) (t : ℕ) (o : Option DeviceGrantRecord) (s : DeviceGrants)
      → lookup k s ≡ o
      → Rows R s
      → Rows R (rotate_row k p (rotated p n u t) o s).1
  rotate_row-Rows k p n u t none s e rows = rows
  rotate_row-Rows k p n u t (some g) s e rows =
      if_rule (λ (x : Bool × DeviceGrants). Rows R x.1) (g.revoked || not (g.refresh_hash == p)) _ _
        (λ _. rows)
        (λ fresh.
          Rows-insert R k (rotated p n u t g) s
            (kept.rotates k p n u t g (or-false_left g.revoked _ fresh) (rows k g e)) rows)

  pub Rows-rotate :
      (k p n u : String) (t : ℕ) (s : DeviceGrants) → Rows R s → Rows R (rotate k p n u t s).1
  unfolding rotate
  Rows-rotate k p n u t s rows = rotate_row-Rows k p n u t (lookup k s) s refl rows

  revoke_row-Rows :
      (k : String) (o : Option DeviceGrantRecord) (s : DeviceGrants)
      → lookup k s ≡ o
      → Rows R s
      → Rows R (revoke_row k o s).1
  revoke_row-Rows k none s e rows = rows
  revoke_row-Rows k (some g) s e rows =
      Rows-insert R k (revoked_grant g) s (kept.revokes k g (rows k g e)) rows

  pub Rows-revoke : (k : String) (s : DeviceGrants) → Rows R s → Rows R (revoke k s).1
  unfolding revoke
  Rows-revoke k s rows = revoke_row-Rows k (lookup k s) s refl rows

  pub Rows-revoke_each :
      (gs : List DeviceGrantRecord) (s : DeviceGrants) → Rows R s → Rows R (revoke_each gs s).1
  unfolding revoke_each
  Rows-revoke_each [] s rows = rows
  Rows-revoke_each (g ∷ gs) s rows =
      if_rule (λ (x : ℕ × DeviceGrants). Rows R x.1) g.revoked _ _ (λ _. Rows-revoke_each gs s rows)
        (λ _. Rows-revoke_each gs (revoke g.grant_id s).1 (Rows-revoke g.grant_id s rows))

  pub Rows-delete_each :
      (gs : List DeviceGrantRecord) (s : DeviceGrants) → Rows R s → Rows R (delete_each gs s).1
  unfolding delete_each delete
  Rows-delete_each [] s rows = rows
  Rows-delete_each (g ∷ gs) s rows =
      Rows-delete_each gs (remove g.grant_id s) (Rows-remove R g.grant_id s rows)

  revoke_named-Rows :
      (rt : Runtime) (k secret : String) (o : Option DeviceGrantRecord) (s : DeviceGrants)
      → Rows R s
      → Rows R (revoke_named rt k secret o s).1
  revoke_named-Rows rt k secret none s rows = rows
  revoke_named-Rows rt k secret (some g) s rows =
      if_rule (λ (x : Bool × DeviceGrants). Rows R x.1) (names_token rt g secret) _ _
        (λ _. Rows-revoke k s rows) (λ _. rows)

  pub Rows-revoke_token :
      (rt : Runtime) (token : String) (s : DeviceGrants)
      → Rows R s
      → Rows R (revoke_token rt token s).1
  unfolding revoke_token
  Rows-revoke_token rt token s rows =
      if_rule (λ (x : Bool × DeviceGrants). Rows R x.1) ((split_refresh token).0 == "") _ _
        (λ _. rows)
        (λ _.
          revoke_named-Rows rt (split_refresh token).0 (split_refresh token).1
            (get (split_refresh token).0 s) s rows)

  revoke_owned-Rows :
      (k u : String) (o : Option DeviceGrantRecord) (s : DeviceGrants)
      → Rows R s
      → Rows R (revoke_owned k u o s).1
  revoke_owned-Rows k u none s rows = rows
  revoke_owned-Rows k u (some g) s rows =
      if_rule (λ (x : Bool × DeviceGrants). Rows R x.1) (not (g.user_id == u)) _ _ (λ _. rows)
        (λ _. Rows-revoke k s rows)

  pub Rows-revoke_grant :
      (k u : String) (s : DeviceGrants) → Rows R s → Rows R (revoke_grant k u s).1
  unfolding revoke_grant
  Rows-revoke_grant k u s rows = revoke_owned-Rows k u (get k s) s rows

module _ (rt : Runtime) (cfg : DeviceSettings) (h : Hooks) (keys : Keys)
    (R : String → DeviceGrantRecord → Type 0) (kept : Kept R) (B : TokenBody → Type 0)
    (moment wall : ℕ)
    (body : (k next : String) (g : DeviceGrantRecord) (user : h.User)
      → R k g
      → live g wall ≡ true
      → B (token_body rt cfg h keys g user next moment)) where
  -- The tokens that a call issues, and the rows that it leaves.
  abbrev pub Good : Result TokenBody × DeviceGrants → Type 0
  Good x = Holds B x.0 × Rows R x.1

  issue_for-Good :
      (k next : String) (g : DeviceGrantRecord) (o : Option h.User) (s : DeviceGrants)
      → ((user : h.User) → B (token_body rt cfg h keys g user next moment))
      → Rows R s
      → Good (issue_for rt cfg h keys g next moment o s)
  issue_for-Good k next g none s b rows = (tt, Rows-revoke R kept g.grant_id s rows)
  issue_for-Good k next g (some user) s b rows = (b user, rows)

  issue-Good :
      (k next : String) (g : DeviceGrantRecord) (s : DeviceGrants)
      → R k g
      → live g wall ≡ true
      → Rows R s
      → Good (issue rt cfg h keys g next moment s)
  unfolding issue
  issue-Good k next g s r alive rows =
      issue_for-Good k next g (load_permitted rt cfg h keys g.user_id) s
        (λ user. body k next g user r alive) rows

  within_grace-live :
      (g : DeviceGrantRecord) (presented next : String)
      → within_grace rt cfg h keys g presented next moment wall ≡ true
      → live g wall ≡ true
  unfolding within_grace
  within_grace-live g presented next e = ground (arith, e)

  grace_or_reuse-Good :
      (k presented next : String) (g : DeviceGrantRecord) (s : DeviceGrants)
      → R k g
      → Rows R s
      → Good (grace_or_reuse rt cfg h keys k g presented next moment wall s)
  unfolding grace_or_reuse
  grace_or_reuse-Good k presented next g s r rows =
      if_rule Good (within_grace rt cfg h keys g presented next moment wall) _ _
        (λ inside. issue-Good k next g s r (within_grace-live g presented next inside) rows)
        (λ _.
          if_rule Good (not (g.previous_refresh_hash == "") && g.previous_refresh_hash == presented)
            _ _ (λ _. (tt, Rows-revoke R kept k s rows)) (λ _. (tt, rows)))

  reloaded-Good :
      (k presented next : String) (o : Option DeviceGrantRecord) (s : DeviceGrants)
      → lookup k s ≡ o
      → Rows R s
      → Good (reloaded rt cfg h keys k o presented next moment wall s)
  unfolding reloaded
  reloaded-Good k presented next none s e rows = (tt, rows)
  reloaded-Good k presented next (some g) s e rows =
      grace_or_reuse-Good k presented next g s (rows k g e) rows

  after_rotate-Good :
      (k presented next : String) (g : DeviceGrantRecord) (won : Bool) (s : DeviceGrants)
      → R k g
      → live g wall ≡ true
      → Rows R s
      → Good (after_rotate rt cfg h keys k g presented next moment wall (won, s))
  unfolding after_rotate get
  after_rotate-Good k presented next g true s r alive rows = issue-Good k next g s r alive rows
  after_rotate-Good k presented next g false s r alive rows =
      reloaded-Good k presented next (lookup k s) s refl rows

  pub refresh_grant-Good :
      (k secret client_id : String) (g : DeviceGrantRecord) (s : DeviceGrants)
      → R k g
      → Rows R s
      → Good (refresh_grant rt cfg h keys k secret client_id g moment wall s)
  unfolding refresh_grant
  refresh_grant-Good k secret client_id g s r rows =
      if_rule Good (not (g.client_id == client_id)) _ _ (λ _. (tt, rows))
        (λ _.
          if_rule Good (not (live g wall)) _ _ (λ _. (tt, rows))
            (λ alive.
              if_rule Good (g.refresh_hash == rt.sha256 secret) _ _
                (λ _. after_rotate-Good k (rt.sha256 secret) _ g _ _ r (ground (arith, alive)) (
                  Rows-rotate R kept k (rt.sha256 secret)
                    (rt.sha256 (successor rt cfg h keys k (rt.sha256 secret))) (stamp rt moment)
                    moment s rows))
                (λ _. grace_or_reuse-Good k (rt.sha256 secret) _ g s r rows)))

  refresh_found-Good :
      (k secret client_id : String) (o : Option DeviceGrantRecord) (s : DeviceGrants)
      → lookup k s ≡ o
      → Rows R s
      → Good (refresh_found rt cfg h keys k secret client_id o moment wall s)
  unfolding refresh_found
  refresh_found-Good k secret client_id none s e rows = (tt, rows)
  refresh_found-Good k secret client_id (some g) s e rows =
      refresh_grant-Good k secret client_id g s (rows k g e) rows

  pub refresh-Good :
      (token client_id : String) (s : DeviceGrants)
      → Rows R s
      → Good (refresh rt cfg h keys token client_id moment wall s)
  unfolding refresh get
  refresh-Good token client_id s rows =
      if_rule Good ((split_refresh token).0 == "" || client_id == "") _ _ (λ _. (tt, rows))
        (λ _.
          refresh_found-Good (split_refresh token).0 (split_refresh token).1 client_id
            (lookup (split_refresh token).0 s) s refl rows)
