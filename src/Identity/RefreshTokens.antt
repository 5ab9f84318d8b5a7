-- ===== src/Identity/RefreshTokens.antt =====
-- The `refresh-tokens` table: `RefreshTokenRecord` and `InMemoryRefreshTokenStore` of
-- src/webbpulse/identity/storage.py. The store is a dict from token hashes to records.
pub mod Laws
pub mod Rows
use webbpulse_python.Base.{
  ℕ, ◌+◌, Bool, true, false, not, ◌&&◌, String, Option, none, some, List, [], ◌∷◌, ◌==◌, ltb,
  if◌then◌else◌, keep, length, or_text, mem_text, text_lt,
}
use webbpulse_python.Base.Assoc.{Assoc, lookup, insert, values, sweep, remove_where}

pub record RefreshTokenRecord : Type 0 where
  pub token_hash : String
  pub family_id : String
  pub user_id : String
  pub generation : ℕ
  pub created_at : String
  pub expires_at : ℕ
  pub consumed_at : String
  pub successor_hash : String
  pub revoked : Bool
  pub device : String
  pub ip_first_seen : String
  pub family_started_at : String
  pub auth_time : ℕ
  pub amr : List String
  pub ip_last_seen : String
  pub client : String
  pub platform : String
  pub browser : String

abbrev pub is_consumed : RefreshTokenRecord → Bool
is_consumed r = not (r.consumed_at == "")

abbrev pub RefreshTokens : Type 0
RefreshTokens = Assoc RefreshTokenRecord

unfoldable pub get : String → RefreshTokens → Option RefreshTokenRecord
get token_hash s = lookup token_hash s

unfoldable pub put : RefreshTokenRecord → RefreshTokens → RefreshTokens
put r s = insert r.token_hash r s

-- `dataclasses.replace(existing, consumed_at=..., successor_hash=...)`
abbrev pub spent : String → String → RefreshTokenRecord → RefreshTokenRecord
spent successor_hash consumed_at r = record r {
  consumed_at = consumed_at;
  successor_hash = successor_hash;
}

-- `now` is the reading of `now_iso()` that stands in for an empty `consumed_at`.
unfoldable pub consume :
    String → String → String → String → RefreshTokens → Option RefreshTokenRecord × RefreshTokens
consume token_hash successor_hash consumed_at now s = elim (lookup token_hash s) [
  | none ↦ (none, s)
  | some existing ↦ if is_consumed existing then (none, s) else (
    some existing,
    insert token_hash (spent successor_hash (or_text consumed_at now) existing) s,
  )
]

abbrev pub revoke_record : RefreshTokenRecord → RefreshTokenRecord
revoke_record r = record r { revoked = true }

abbrev pub revocable_in : String → RefreshTokenRecord → Bool
revocable_in family_id r = r.family_id == family_id && not r.revoked

unfoldable pub revoke_family : String → RefreshTokens → ℕ × RefreshTokens
revoke_family family_id = sweep (revocable_in family_id) revoke_record

abbrev pub older_login : String → ℕ → RefreshTokenRecord → Bool
older_login family_id auth_time r = r.family_id == family_id && ltb r.auth_time auth_time

unfoldable pub set_family_auth_time : String → ℕ → RefreshTokens → ℕ × RefreshTokens
set_family_auth_time family_id auth_time =
    sweep (older_login family_id auth_time) (λ r. record r { auth_time = auth_time })

-- `record.amr` is true when it is not empty.
abbrev amr_of : String → List RefreshTokenRecord → List String
amr_of family_id [] = []
amr_of family_id (r ∷ rs) =
    if r.family_id == family_id && ltb 0 (length r.amr) then r.amr else amr_of family_id rs

unfoldable pub family_amr : String → RefreshTokens → List String
family_amr family_id s = amr_of family_id (values s)

abbrev pub revocable_of : String → String → RefreshTokenRecord → Bool
revocable_of user_id except_family_id r =
    not (r.family_id == except_family_id) && (r.user_id == user_id && not r.revoked)

unfoldable pub revoke_all_for_user : String → String → RefreshTokens → ℕ × RefreshTokens
revoke_all_for_user user_id except_family_id =
    sweep (revocable_of user_id except_family_id) revoke_record

-- The dict of newest generations, as the loop over the rows builds it.
abbrev newest_into : String → RefreshTokenRecord → RefreshTokens → RefreshTokens
newest_into user_id r latest =
    if not (r.user_id == user_id) then latest else elim (lookup r.family_id latest) [
      | none ↦ insert r.family_id r latest
      | some current ↦
          if ltb current.generation r.generation then insert r.family_id r latest else latest
    ]

abbrev newest_of : String → List RefreshTokenRecord → RefreshTokens → RefreshTokens
newest_of user_id [] latest = latest
newest_of user_id (r ∷ rs) latest = newest_of user_id rs (newest_into user_id r latest)

-- `sorted(..., key=lambda record: record.family_id)`, stable
abbrev insert_by_family : RefreshTokenRecord → List RefreshTokenRecord → List RefreshTokenRecord
insert_by_family r [] = r ∷ []
insert_by_family r (x ∷ xs) =
    if text_lt x.family_id r.family_id then x ∷ insert_by_family r xs else r ∷ x ∷ xs

abbrev sort_by_family : List RefreshTokenRecord → List RefreshTokenRecord
sort_by_family [] = []
sort_by_family (r ∷ rs) = insert_by_family r (sort_by_family rs)

unfoldable pub latest_by_family_for_user : String → RefreshTokens → List RefreshTokenRecord
latest_by_family_for_user user_id s = sort_by_family (values (newest_of user_id (values s) []))

-- `sorted` of the set of the families: no repetitions, ascending.
abbrev add_family : String → List String → List String
add_family f [] = f ∷ []
add_family f (g ∷ gs) =
    if f == g then g ∷ gs else if text_lt f g then f ∷ g ∷ gs else g ∷ add_family f gs

unfoldable pub families_of_device : String → String → List RefreshTokenRecord → List String
families_of_device user_id device [] = []
families_of_device user_id device (r ∷ rs) =
    let rest = families_of_device user_id device rs in
    if r.user_id == user_id && r.device == device then add_family r.family_id rest else rest

unfoldable pub revoke_families : List String → RefreshTokens → ℕ × RefreshTokens
unfolding revoke_family
revoke_families [] s = (0, s)
revoke_families (f ∷ fs) s =
    let (n, s') = revoke_family f s in let (m, s'') = revoke_families fs s' in (n + m, s'')

unfoldable pub revoke_all_for_device : String → String → RefreshTokens → ℕ × RefreshTokens
unfolding revoke_families
revoke_all_for_device user_id device s =
    revoke_families (families_of_device user_id device (values s)) s

unfoldable pub delete_all_for_user : String → RefreshTokens → ℕ × RefreshTokens
delete_all_for_user user_id = remove_where (λ r. r.user_id == user_id)
