-- ===== src/Identity/IdentityTokens.antt =====
-- The `identity-tokens` table: `IdentityTokenRecord` and `InMemoryIdentityTokenStore` of
-- src/webbpulse/identity/storage.py. `now` is the reading of `now_iso()`.
use webbpulse_python.Base.{
  ℕ, Bool, true, false, not, ◌&&◌, String, Option, none, some, ◌≡◌, ◌==◌, eq_iff, if◌then◌else◌,
  or_text, arith, inl, inr, Option-cases, Bool-cases, ◌∙◌, sym,
}
use webbpulse_python.Base.Assoc.{
  Assoc, lookup, insert, sweep, remove_where, lookup-insert, lookup-sweep, map_option-some,
}

pub record IdentityTokenRecord : Type 0 where
  pub token_hash : String
  pub purpose : String
  pub user_id : String
  pub created_at : String
  pub expires_at : ℕ
  pub consumed_at : String
  pub attributes : Assoc String

abbrev pub IdentityTokens : Type 0
IdentityTokens = Assoc IdentityTokenRecord

abbrev pub is_used : IdentityTokenRecord → Bool
is_used r = not (r.consumed_at == "")

unfoldable pub get : String → IdentityTokens → Option IdentityTokenRecord
get token_hash s = lookup token_hash s

unfoldable pub put : IdentityTokenRecord → IdentityTokens → IdentityTokens
put r s = insert r.token_hash r s

abbrev pub used_at : String → IdentityTokenRecord → IdentityTokenRecord
used_at consumed_at r = record r { consumed_at = consumed_at }

unfoldable pub consume :
    String → String → String → IdentityTokens → Option IdentityTokenRecord × IdentityTokens
consume token_hash consumed_at now s = elim (lookup token_hash s) [
  | none ↦ (none, s)
  | some existing ↦
      if is_used existing
      then (none, s)
      else (some existing, insert token_hash (used_at (or_text consumed_at now) existing) s)
]

abbrev pub outstanding_of : String → String → IdentityTokenRecord → Bool
outstanding_of user_id purpose r = r.user_id == user_id && (r.purpose == purpose && not (is_used r))

unfoldable pub revoke_for_user :
    (user_id purpose now : String) → IdentityTokens → ℕ × IdentityTokens
revoke_for_user user_id purpose now = sweep (outstanding_of user_id purpose) (used_at now)

unfoldable pub delete_all_for_user : String → IdentityTokens → ℕ × IdentityTokens
delete_all_for_user user_id = remove_where (λ r. r.user_id == user_id)

pub get-put :
    (r : IdentityTokenRecord) (j : String) (s : IdentityTokens)
    → get j (put r s) ≡ (if r.token_hash == j then some r else get j s)
unfolding get put
get-put r j s = lookup-insert r.token_hash j r s

-- A consume that finds its row unused answers with the row as it was, and marks it used.
pub consume_unused :
    (h at now : String) (r : IdentityTokenRecord) (s : IdentityTokens)
    → get h s ≡ some r
    → is_used r ≡ false
    → ((consume h at now s).0 ≡ some r)
      × ((j : String)
          → get j (consume h at now s).1
            ≡ (if h == j then some (used_at (or_text at now) r) else get j s))
unfolding get consume
consume_unused h at now r s found unused =
    (ground arith, λ j. ground (arith, lookup-insert h j (used_at (or_text at now) r) s))

pub consume_used :
    (h at now : String) (r : IdentityTokenRecord) (s : IdentityTokens)
    → get h s ≡ some r
    → is_used r ≡ true
    → consume h at now s ≡ (none, s)
unfolding get consume
consume_used h at now r s found used = ground arith

pub consume_missing :
    (h at now : String) (s : IdentityTokens) → get h s ≡ none → consume h at now s ≡ (none, s)
unfolding get consume
consume_missing h at now s missing = ground arith

-- There is no row at the hash that could still be confirmed.
abbrev pub IsClosed : String → IdentityTokens → Type 0
IsClosed h s = (r : IdentityTokenRecord) → get h s ≡ some r → is_used r ≡ true

pub IsClosed-put :
    (h : String) (r : IdentityTokenRecord) (s : IdentityTokens)
    → r.token_hash == h ≡ false
    → IsClosed h s
    → IsClosed h (put r s)
IsClosed-put h r s other closed x e = closed x (ground (arith, get-put r h s))

pub IsClosed-consume :
    (h k at now : String) (s : IdentityTokens)
    → or_text at now == "" ≡ false
    → IsClosed h s
    → IsClosed h (consume k at now s).1
IsClosed-consume h k at now s nonempty closed = elim (Option-cases (get k s)) [
  | inl missing ↦ rw (consume_missing k at now s missing) closed
  | inr (r, found) ↦ elim (Bool-cases (is_used r)) [
    | inl used ↦ rw (consume_used k at now r s found used) closed
    | inr unused ↦ λ x e.
        let (_, after) = consume_unused k at now r s found unused in
        ground (arith, after h, closed x)
  ]
]

pub IsClosed-revoke_for_user :
    (h user_id purpose now : String) (s : IdentityTokens)
    → now == "" ≡ false
    → IsClosed h s
    → IsClosed h (revoke_for_user user_id purpose now s).1
unfolding get revoke_for_user
IsClosed-revoke_for_user h user_id purpose now s nonempty closed x e =
    let hit = outstanding_of user_id purpose in
    let (r, found, same) =
      map_option-some (λ v. if hit v then used_at now v else v) (lookup h s) x
        (sym (lookup-sweep hit (used_at now) h s) ∙ e) in
    ground (arith, closed r found, same, nonempty)

pub consume-IsClosed :
    (h at now : String) (r : IdentityTokenRecord) (s : IdentityTokens)
    → get h s ≡ some r
    → is_used r ≡ false
    → or_text at now == "" ≡ false
    → IsClosed h (consume h at now s).1
consume-IsClosed h at now r s found unused nonempty x e =
    let (_, after) = consume_unused h at now r s found unused in ground (arith, after h, eq_iff h h)
