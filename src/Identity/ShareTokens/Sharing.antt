-- ===== src/Identity/ShareTokens/Sharing.antt =====
-- Sequences of share token requests: a minted token opens until its expiry, and a revoked one
-- never again.
use mathlib.Core.Path.{subst}
use webbpulse_python.Base.{
  ℕ, Bool, true, false, not, String, Option, none, some, List, [], ◌∷◌, ◌≡◌, ◌==◌, arith, refl, sym,
  ◌∙◌, ap, if◌then◌else◌, if_rule, suffixed, All,
}
use webbpulse_python.Base.Assoc.{lookup}
use webbpulse_python.Base.Rows.{Rows, Rows-insert}
use webbpulse_python.Runtime.{Runtime}
use webbpulse_python.Identity.ShareTokens.{
  ShareTarget, ShareTokenRecord, ShareTokens, Expiry, share_token_prefix, is_share_token,
  is_revoked, is_usable, get, put, revoked_token, revoke_row, revoke, touch_row, touch, revoke_each,
  revoke_all_for_target, list_for_target, minted, mint_share_token, verified, verify_share_token,
  revoke_share_token,
}

-- A property of rows that neither using nor revoking loses.
pub record Kept {C : Type 0} (R : String → ShareTokenRecord C → Type 0) : Type 0 where
  pub touches :
      (k now : String) (r : ShareTokenRecord C) → R k r → R k (record r { last_used_at = now })
  pub revokes :
      (k at now : String) (r : ShareTokenRecord C)
      → is_revoked r ≡ false
      → R k r
      → R k (revoked_token at now r)

pub data ShareRequest (C : Type 0) : Type 0 where
  mints :
      (random tenant_id : String) (capability : C) (target : Option ShareTarget)
      (name created_by : String) (expiry : Expiry) (created_at now : String) (moment : ℕ)
      → ShareRequest C
  verifies : (plaintext now : String) (moment : ℕ) (touches : Bool) → ShareRequest C
  revokes : (plaintext_or_hash at now : String) → ShareRequest C
  revokes_target : (tenant_id : String) (target : ShareTarget) (at now : String) → ShareRequest C

module _ {C : Type 0} (rt : Runtime) where
  -- The row that a request lets through, if it lets one through, and the store behind it.
  unfoldable pub step : ShareRequest C → ShareTokens C → Option (ShareTokenRecord C) × ShareTokens C
  step (mints random tenant_id capability target name created_by expiry created_at now moment) s = (
    none,
    (mint_share_token rt random tenant_id capability target name created_by expiry created_at now
        moment s).1,
  )
  step (verifies plaintext now moment touches) s =
      verify_share_token rt plaintext now moment touches s
  step (revokes plaintext_or_hash at now) s =
      (none, (revoke_share_token rt plaintext_or_hash at now s).1)
  step (revokes_target tenant_id target at now) s =
      (none, (revoke_all_for_target tenant_id target at now s).1)

  unfoldable pub run : List (ShareRequest C) → ShareTokens C → ShareTokens C
  run [] s = s
  run (q ∷ qs) s = run qs (step q s).1

  -- A request that mints no token of these hashes.
  abbrev pub Avoids : (String → Type 0) → ShareRequest C → Type 0
  Avoids Old (mints random _ _ _ _ _ _ _ _ _) =
      ¬ Old (rt.sha256 (suffixed share_token_prefix random))
  Avoids Old _ = Unit

module _ {C : Type 0} (R : String → ShareTokenRecord C → Type 0) (kept : Kept R) where
  revoke_row-Rows :
      (k at now : String) (o : Option (ShareTokenRecord C)) (s : ShareTokens C)
      → lookup k s ≡ o
      → Rows R s
      → Rows R (revoke_row k at now o s).1
  revoke_row-Rows k at now none s e rows = rows
  revoke_row-Rows k at now (some r) s e rows =
      if_rule (λ (x : Option (ShareTokenRecord C) × ShareTokens C). Rows R x.1) (is_revoked r) _ _
        (λ _. rows)
        (λ unrevoked.
          Rows-insert R k (revoked_token at now r) s
            (kept.revokes k at now r unrevoked (rows k r e)) rows)

  pub Rows-revoke :
      (k at now : String) (s : ShareTokens C) → Rows R s → Rows R (revoke k at now s).1
  unfolding revoke
  Rows-revoke k at now s rows = revoke_row-Rows k at now (lookup k s) s refl rows

  pub Rows-revoke_each :
      (at now : String) (rs : List (ShareTokenRecord C)) (s : ShareTokens C)
      → Rows R s
      → Rows R (revoke_each at now rs s).1
  unfolding revoke_each
  Rows-revoke_each at now [] s rows = rows
  Rows-revoke_each at now (r ∷ rs) s rows =
      if_rule (λ (x : ℕ × ShareTokens C). Rows R x.1) (is_revoked r) _ _
        (λ _. Rows-revoke_each at now rs s rows)
        (λ _.
          Rows-revoke_each at now rs (revoke r.token_hash at now s).1
            (Rows-revoke r.token_hash at now s rows))

  touch_row-Rows :
      (k now : String) (o : Option (ShareTokenRecord C)) (s : ShareTokens C)
      → lookup k s ≡ o
      → Rows R s
      → Rows R (touch_row k now o s)
  touch_row-Rows k now none s e rows = rows
  touch_row-Rows k now (some r) s e rows =
      Rows-insert R k _ s (kept.touches k now r (rows k r e)) rows

  verify-Rows :
      (rt : Runtime) (plaintext now : String) (moment : ℕ) (touches : Bool) (s : ShareTokens C)
      → Rows R s
      → Rows R (verify_share_token rt plaintext now moment touches s).1
  unfolding verify_share_token touch get
  verify-Rows rt plaintext now moment touches s rows =
      if_rule (λ (x : Option (ShareTokenRecord C) × ShareTokens C). Rows R x.1)
        (not (is_share_token plaintext)) _ _ (λ _. rows) (λ _. of (lookup (rt.sha256 plaintext) s))
    where
      of :
          (o : Option (ShareTokenRecord C))
          → Rows R (verified rt (rt.sha256 plaintext) now moment touches o s).1
      of none = rows
      of (some r) =
          if_rule (λ (x : Option (ShareTokenRecord C) × ShareTokens C). Rows R x.1)
            (not (r.token_hash == rt.sha256 plaintext)) _ _ (λ _. rows)
            (λ _.
              if_rule (λ (x : Option (ShareTokenRecord C) × ShareTokens C). Rows R x.1)
                (not (is_usable r moment)) _ _ (λ _. rows)
                (λ _.
                  if_rule (Rows R) touches _ _
                    (λ _.
                      touch_row-Rows (rt.sha256 plaintext) now (lookup (rt.sha256 plaintext) s) s
                        refl rows)
                    (λ _. rows)))

module _ {C : Type 0} (rt : Runtime) (Old : String → Type 0) where
  abbrev pub Over : String → ShareTokenRecord C → Type 0
  Over k r = (r.token_hash ≡ k) × (Old k → is_revoked r ≡ true)

  pub Over-kept : Kept Over
  Over-kept = record {
    touches = λ k now r over. over;
    revokes = λ k at now r unrevoked over. (over.0, λ old. absurd (cc (over.1 old, unrevoked)));
  }

  step-Over :
      (q : ShareRequest C) (s : ShareTokens C)
      → Avoids rt Old q
      → Rows Over s
      → Rows Over (step rt q s).1
  unfolding step mint_share_token put revoke_share_token revoke_all_for_target
  step-Over (mints random tenant c target name by expiry at now m) s avoids rows =
      Rows-insert Over (rt.sha256 (suffixed share_token_prefix random))
        (minted rt random tenant c target name by expiry at now m) s
        (refl, λ old. absurd (avoids old)) rows
  step-Over (verifies p now m touches) s avoids rows =
      verify-Rows Over Over-kept rt p now m touches s rows
  step-Over (revokes p at now) s avoids rows =
      Rows-revoke Over Over-kept (if is_share_token p then rt.sha256 p else p) at now s rows
  step-Over (revokes_target tenant t at now) s avoids rows =
      Rows-revoke_each Over Over-kept at now (list_for_target tenant t s) s rows

  pub run-Over :
      (qs : List (ShareRequest C)) (s : ShareTokens C)
      → All (Avoids rt Old) qs
      → Rows Over s
      → Rows Over (run rt qs s)
  unfolding run
  run-Over [] s avoids rows = rows
  run-Over (q ∷ qs) s avoids rows =
      run-Over qs (step rt q s).1 avoids.1 (step-Over q s avoids.0 rows)

  pub verify-Over :
      (p now : String) (m : ℕ) (touches : Bool) (s : ShareTokens C) (r : ShareTokenRecord C)
      → Rows Over s
      → (verify_share_token rt p now m touches s).0 ≡ some r
      → ¬ Old r.token_hash
  unfolding verify_share_token get
  verify-Over p now m touches s r rows =
      if_rule
        (λ (x : Option (ShareTokenRecord C) × ShareTokens C). x.0 ≡ some r → ¬ Old r.token_hash)
        (not (is_share_token p)) _ _ (λ _ e. absurd (cc (e)))
        (λ _. of (lookup (rt.sha256 p) s) refl)
    where
      of :
          (o : Option (ShareTokenRecord C))
          → lookup (rt.sha256 p) s ≡ o
          → (verified rt (rt.sha256 p) now m touches o s).0 ≡ some r
          → ¬ Old r.token_hash
      of none at e = absurd (cc (e))
      of (some x) at e =
          if_rule
            (λ (y : Option (ShareTokenRecord C) × ShareTokens C). y.0 ≡ some r → ¬ Old r.token_hash)
            (not (x.token_hash == rt.sha256 p)) _ _ (λ _ e. absurd (cc (e)))
            (λ _.
              if_rule
                (λ (y : Option (ShareTokenRecord C) × ShareTokens C).
                  y.0 ≡ some r → ¬ Old r.token_hash)
                (not (is_usable x m)) _ _ (λ _ e. absurd (cc (e)))
                (λ usable e old.
                  let is : x ≡ r = cc (e) in
                  let over = rows (rt.sha256 p) x at in
                  let unrevoked : is_revoked x ≡ false = ground (arith, usable) in
                  absurd (
                    cc (
                      over.1 (subst Old (ap ShareTokenRecord.token_hash (sym is) ∙ over.0) old),
                      unrevoked,
                    ))))
            e
