-- ===== src/Identity/ShareTokens.antt =====
-- Share tokens: src/webbpulse/identity/share_tokens.py with its in-memory store. The capability is
-- the product's own. A moment is in microseconds, an expiry in seconds; `now` beside a time that
-- may be left out is `now_iso()`.
pub mod Sharing
pub mod Opening
pub mod Final
use text.Mathlib.Text.{starts_with}
use webbpulse_python.Base.{
  ℕ, suc, ◌+◌, ◌*◌, ◌/◌, Bool, true, false, not, ◌&&◌, ◌||◌, String, Option, none, some, List, [],
  ◌∷◌, ◌==◌, leb, nat_eq, if◌then◌else◌, or_text, text_lt, suffixed, joined, keep,
}
use webbpulse_python.Base.Assoc.{Assoc, lookup, insert, values, remove_where}
use webbpulse_python.Runtime.{Runtime, microseconds}

pub record ShareTarget : Type 0 where
  pub kind : String
  pub id : String

pub record ShareTokenRecord (C : Type 0) : Type 0 where
  pub token_hash : String
  pub tenant_id : String
  pub capability : C
  pub target_type : String
  pub target_id : String
  pub name : String
  pub created_by : String
  pub created_at : String
  pub expires_at : ℕ
  pub last_used_at : String
  pub revoked_at : String

abbrev pub ShareTokens : Type 0 → Type 0
ShareTokens C = Assoc (ShareTokenRecord C)

abbrev pub share_token_prefix : String
share_token_prefix = "wps_"

-- `expires_at`, a Unix timestamp, or `expires_in`, a span in microseconds.
pub data Expiry : Type 0 where
  at_time within_span : ℕ → Expiry
  never : Expiry

abbrev pub expiry_of : Expiry → (moment : ℕ) → ℕ
expiry_of (at_time t) moment = t
expiry_of (within_span d) moment = (moment + d) / microseconds
expiry_of never moment = 0

-- `_coerce_target`
abbrev pub coerce_target : Option ShareTarget → ShareTarget
coerce_target none = record { kind = ""; id = "" }
coerce_target (some t) = t

-- `share_target_key`
abbrev pub share_target_key : (kind id : String) → String
share_target_key kind id = joined (kind ∷ "#" ∷ id ∷ [])

abbrev pub is_target : (kind id : String) → Bool
is_target kind id = not (kind == "") && not (id == "")

abbrev pub is_share_token : String → Bool
is_share_token candidate = starts_with candidate share_token_prefix

module _ {C : Type 0} where
  abbrev pub target_key : ShareTokenRecord C → String
  target_key r =
      if is_target r.target_type r.target_id then share_target_key r.target_type r.target_id else ""

  abbrev pub is_revoked : ShareTokenRecord C → Bool
  is_revoked r = not (r.revoked_at == "")

  abbrev pub is_expired : ShareTokenRecord C → (moment : ℕ) → Bool
  is_expired r moment =
      if nat_eq r.expires_at 0 then false else leb (r.expires_at * microseconds) moment

  abbrev pub is_usable : ShareTokenRecord C → (moment : ℕ) → Bool
  is_usable r moment = not (is_revoked r) && not (is_expired r moment)

  unfoldable pub get : String → ShareTokens C → Option (ShareTokenRecord C)
  get token_hash s = lookup token_hash s

  unfoldable pub put : ShareTokenRecord C → ShareTokens C → ShareTokens C
  put r s = insert r.token_hash r s

  -- `sorted` by the creation stamp, which keeps the order of equal stamps.
  abbrev pub insert_by_creation :
      ShareTokenRecord C → List (ShareTokenRecord C) → List (ShareTokenRecord C)
  insert_by_creation r [] = r ∷ []
  insert_by_creation r (x ∷ xs) =
      if text_lt x.created_at r.created_at then x ∷ insert_by_creation r xs else r ∷ x ∷ xs

  unfoldable pub sort_by_creation : List (ShareTokenRecord C) → List (ShareTokenRecord C)
  sort_by_creation [] = []
  sort_by_creation (r ∷ rs) = insert_by_creation r (sort_by_creation rs)

  unfoldable pub list_for_tenant : (tenant_id : String) → ShareTokens C → List (ShareTokenRecord C)
  list_for_tenant tenant_id s = sort_by_creation (keep (λ r. r.tenant_id == tenant_id) (values s))

  abbrev pub onto : (tenant_id key : String) → ShareTokenRecord C → Bool
  onto tenant_id key r = r.tenant_id == tenant_id && target_key r == key

  unfoldable pub list_for_target :
      (tenant_id : String) → ShareTarget → ShareTokens C → List (ShareTokenRecord C)
  list_for_target tenant_id t s =
      if tenant_id == "" || not (is_target t.kind t.id)
      then []
      else sort_by_creation (keep (onto tenant_id (share_target_key t.kind t.id)) (values s))

  abbrev pub revoked_token : (at now : String) → ShareTokenRecord C → ShareTokenRecord C
  revoked_token at now r = record r { revoked_at = or_text at now }

  abbrev pub revoke_row :
      (token_hash at now : String)
      → Option (ShareTokenRecord C)
      → ShareTokens C
      → Option (ShareTokenRecord C) × ShareTokens C
  revoke_row token_hash at now none s = (none, s)
  revoke_row token_hash at now (some r) s =
      if is_revoked r then (none, s) else (some r, insert token_hash (revoked_token at now r) s)

  unfoldable pub revoke :
      (token_hash at now : String) → ShareTokens C → Option (ShareTokenRecord C) × ShareTokens C
  revoke token_hash at now s = revoke_row token_hash at now (lookup token_hash s) s

  abbrev pub touch_row :
      (token_hash now : String) → Option (ShareTokenRecord C) → ShareTokens C → ShareTokens C
  touch_row token_hash now none s = s
  touch_row token_hash now (some r) s = insert token_hash (record r { last_used_at = now }) s

  -- `touch` as `verify_share_token` calls it
  unfoldable pub touch : (token_hash now : String) → ShareTokens C → ShareTokens C
  touch token_hash now s = touch_row token_hash now (lookup token_hash s) s

  unfoldable pub delete_all_for_tenant : (tenant_id : String) → ShareTokens C → ℕ × ShareTokens C
  delete_all_for_tenant tenant_id s = remove_where (λ r. r.tenant_id == tenant_id) s

  abbrev pub counted : Option (ShareTokenRecord C) → ℕ → ℕ
  counted none n = n
  counted (some r) n = suc n

  -- The loop of `revoke_all_for_target` and `revoke_all_for_tenant` over the rows that were listed.
  unfoldable pub revoke_each :
      (at now : String) → List (ShareTokenRecord C) → ShareTokens C → ℕ × ShareTokens C
  unfolding revoke
  revoke_each at now [] s = (0, s)
  revoke_each at now (r ∷ rs) s =
      if is_revoked r
      then revoke_each at now rs s
      else let (was, s') = revoke r.token_hash at now s in
        let (n, s'') = revoke_each at now rs s' in (counted was n, s'')

  unfoldable pub revoke_all_for_target :
      (tenant_id : String) → ShareTarget → (at now : String) → ShareTokens C → ℕ × ShareTokens C
  revoke_all_for_target tenant_id t at now s = revoke_each at now (list_for_target tenant_id t s) s

  unfoldable pub revoke_all_for_tenant :
      (tenant_id at now : String) → ShareTokens C → ℕ × ShareTokens C
  revoke_all_for_tenant tenant_id at now s = revoke_each at now (list_for_tenant tenant_id s) s

module _ {C : Type 0} (rt : Runtime) where
  -- The record of `mint_share_token`.
  abbrev pub minted :
      (random tenant_id : String)
      → C
      → Option ShareTarget
      → (name created_by : String) → Expiry
      → (created_at now : String) (moment : ℕ) → ShareTokenRecord C
  minted random tenant_id capability target name created_by expiry created_at now moment = record {
    token_hash = rt.sha256 (suffixed share_token_prefix random);
    tenant_id = tenant_id;
    capability = capability;
    target_type = (coerce_target target).kind;
    target_id = (coerce_target target).id;
    name = name;
    created_by = created_by;
    created_at = or_text created_at now;
    expires_at = expiry_of expiry moment;
    last_used_at = "";
    revoked_at = "";
  }

  -- `mint_share_token` into a store: the plaintext, which starts with the prefix, and the store.
  unfoldable pub mint_share_token :
      (random tenant_id : String)
      → C
      → Option ShareTarget
      → (name created_by : String) → Expiry
      → (created_at now : String) (moment : ℕ) → ShareTokens C
      → String × ShareTokens C
  unfolding put
  mint_share_token random tenant_id capability target name created_by expiry created_at now moment
        s =
      (
        suffixed share_token_prefix random,
        put (minted random tenant_id capability target name created_by expiry created_at now moment)
            s,
      )

  abbrev pub verified :
      (token_hash now : String) (moment : ℕ) (touches : Bool)
      → Option (ShareTokenRecord C)
      → ShareTokens C
      → Option (ShareTokenRecord C) × ShareTokens C
  verified token_hash now moment touches none s = (none, s)
  verified token_hash now moment touches (some r) s =
      if not (r.token_hash == token_hash)
      then (none, s)
      else if not (is_usable r moment)
      then (none, s)
      else (some r, (if touches then touch token_hash now s else s))

  unfoldable pub verify_share_token :
      (plaintext now : String) (moment : ℕ) (touches : Bool)
      → ShareTokens C
      → Option (ShareTokenRecord C) × ShareTokens C
  unfolding get
  verify_share_token plaintext now moment touches s =
      if not (is_share_token plaintext)
      then (none, s)
      else verified (rt.sha256 plaintext) now moment touches (get (rt.sha256 plaintext) s) s

  unfoldable pub revoke_share_token :
      (plaintext_or_hash at now : String)
      → ShareTokens C
      → Option (ShareTokenRecord C) × ShareTokens C
  revoke_share_token plaintext_or_hash at now s =
      revoke
        (if is_share_token plaintext_or_hash
          then rt.sha256 plaintext_or_hash
          else plaintext_or_hash)
        at now s
