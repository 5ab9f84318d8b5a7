-- ===== src/Identity/ShareTokens/Opening.antt =====
-- Which share tokens open, and what the row of a minted one holds.
use webbpulse_python.Base.{
  ℕ, ◌+◌, ◌*◌, ◌/◌, ◌≤◌, ltb, nat_eq, Bool, true, false, not, ◌||◌, String, Option, none, some, ◌≡◌,
  ◌==◌, arith, refl, ◌∙◌, ap, if◌then◌else◌, if_true, if_false,
}
use webbpulse_python.Runtime.{Runtime, microseconds}
use webbpulse_python.Identity.ShareTokens.{
  ShareTarget, ShareTokenRecord, ShareTokens, Expiry, at_time, within_span, never, is_revoked,
  is_expired, is_usable, minted, verified,
}

-- Whether a reader at the moment `m'` is in time for the expiry that was asked for at the moment
-- `m`: before the second of a timestamp, where zero sets none, or in an earlier whole second than
-- the one in which the span ends.
abbrev pub in_time : Expiry → (m m' : ℕ) → Bool
in_time (at_time t) m m' = nat_eq t 0 || ltb m' (t * microseconds)
in_time (within_span d) m m' = ltb (m' / microseconds) ((m + d) / microseconds)
in_time never m m' = true

-- A row carries what its token was asked for with, and is not revoked.
pub record Carries {C : Type 0} (tenant_id : String) (c : C) (target : Option ShareTarget)
    (name by : String) (r : ShareTokenRecord C) : Type 0 where
  pub for_tenant : r.tenant_id ≡ tenant_id
  pub grants : r.capability ≡ c
  pub named : r.name ≡ name
  pub created : r.created_by ≡ by
  pub onto_target :
      (t : ShareTarget) → target ≡ some t → (r.target_type ≡ t.kind) × (r.target_id ≡ t.id)
  pub untargeted : target ≡ none → (r.target_type ≡ "") × (r.target_id ≡ "")
  pub unrevoked : is_revoked r ≡ false

module _ {C : Type 0} (rt : Runtime) where
  pub minted-Carries :
      (random tenant_id : String) (c : C) (target : Option ShareTarget) (name by : String)
      (expiry : Expiry) (at now : String) (m : ℕ)
      → Carries tenant_id c target name by
          (minted rt random tenant_id c target name by expiry at now m)
  minted-Carries random tenant_id c target name by expiry at now m = record {
    for_tenant = refl;
    grants = refl;
    named = refl;
    created = refl;
    onto_target = λ t e. rw e (refl, refl);
    untargeted = λ e. rw e (refl, refl);
    unrevoked = refl;
  }

  pub is_expired-in_time :
      (random tenant_id : String) (c : C) (target : Option ShareTarget) (name by : String)
      (expiry : Expiry) (at now : String) (m m' : ℕ)
      → microseconds ≤ m
      → is_expired (minted rt random tenant_id c target name by expiry at now m) m'
        ≡ not (in_time expiry m m')
  is_expired-in_time random tenant_id c target name by (at_time t) at now m m' running =
      ground arith
  is_expired-in_time random tenant_id c target name by (within_span d) at now m m' running =
      ground (arith, running)
  is_expired-in_time random tenant_id c target name by never at now m m' running = refl

  pub opened :
      (h : String) (x : ShareTokenRecord C) (timely : Bool) (now : String) (m : ℕ) (touches : Bool)
      (s : ShareTokens C)
      → x.token_hash == h ≡ true
      → is_revoked x ≡ false
      → is_expired x m ≡ not timely
      → (verified rt h now m touches (some x) s).0 ≡ (if timely then some x else none)
  opened h x true now m touches s same unrevoked fresh =
      ap (λ (y : Option (ShareTokenRecord C) × ShareTokens C). y.0)
        (if_false (not (x.token_hash == h)) _ _ (ap not same)
          ∙ if_false (not (is_usable x m)) _ _ (ground (arith, unrevoked, fresh)))
  opened h x false now m touches s same unrevoked fresh =
      ap (λ (y : Option (ShareTokenRecord C) × ShareTokens C). y.0)
        (if_false (not (x.token_hash == h)) _ _ (ap not same)
          ∙ if_true (not (is_usable x m)) _ _ (ground (arith, unrevoked, fresh)))
