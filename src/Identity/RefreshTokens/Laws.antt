-- ===== src/Identity/RefreshTokens/Laws.antt =====
-- The store as its callers see it: what `get` answers after each write, and the rule by which a
-- property of every row survives each write.
use webbpulse_python.Base.{
  ℕ, true, false, String, none, some, ◌≡◌, ◌==◌, if◌then◌else◌, arith, or_text, ◌⊎◌, Option-cases,
  Bool-cases, inl, inr,
}
use webbpulse_python.Base.Assoc.{map_option, lookup-insert, lookup-sweep}
use webbpulse_python.Identity.RefreshTokens.{
  RefreshTokenRecord, RefreshTokens, get, put, consume, spent, revoke_family, revoke_record,
  revocable_in, is_consumed, revoke_all_for_user, revocable_of, set_family_auth_time, older_login,
}

abbrev pub revoked_in : String → RefreshTokenRecord → RefreshTokenRecord
revoked_in f r = if revocable_in f r then revoke_record r else r

abbrev pub revoked_of : String → String → RefreshTokenRecord → RefreshTokenRecord
revoked_of u f r = if revocable_of u f r then revoke_record r else r

pub get-put :
    (r : RefreshTokenRecord) (j : String) (s : RefreshTokens)
    → get j (put r s) ≡ (if r.token_hash == j then some r else get j s)
unfolding get put
get-put r j s = lookup-insert r.token_hash j r s

pub get-revoke_family :
    (f j : String) (s : RefreshTokens)
    → get j (revoke_family f s).1 ≡ map_option (revoked_in f) (get j s)
unfolding get revoke_family
get-revoke_family f j s = lookup-sweep (revocable_in f) revoke_record j s

pub get-revoke_all_for_user :
    (u f j : String) (s : RefreshTokens)
    → get j (revoke_all_for_user u f s).1 ≡ map_option (revoked_of u f) (get j s)
unfolding get revoke_all_for_user
get-revoke_all_for_user u f j s = lookup-sweep (revocable_of u f) revoke_record j s

abbrev pub stepped_up : String → ℕ → RefreshTokenRecord → RefreshTokenRecord
stepped_up f t r = if older_login f t r then record r { auth_time = t } else r

pub get-set_family_auth_time :
    (f : String) (t : ℕ) (j : String) (s : RefreshTokens)
    → get j (set_family_auth_time f t s).1 ≡ map_option (stepped_up f t) (get j s)
unfolding get set_family_auth_time
get-set_family_auth_time f t j s =
    lookup-sweep (older_login f t) (λ r. record r { auth_time = t }) j s

-- A consume that finds its row unspent returns the row as it was, and marks it spent.
pub consume_unspent :
    (h succ at now : String) (r : RefreshTokenRecord) (s : RefreshTokens)
    → get h s ≡ some r
    → is_consumed r ≡ false
    → (consume h succ at now s).0 ≡ some r
unfolding get consume
consume_unspent h succ at now r s found unspent = ground arith

pub consume_missing :
    (h succ at now : String) (s : RefreshTokens)
    → get h s ≡ none
    → consume h succ at now s ≡ (none, s)
unfolding get consume
consume_missing h succ at now s missing = ground arith

pub consume_spent :
    (h succ at now : String) (r : RefreshTokenRecord) (s : RefreshTokens)
    → get h s ≡ some r
    → is_consumed r ≡ true
    → consume h succ at now s ≡ (none, s)
unfolding get consume
consume_spent h succ at now r s found used = ground arith

pub get-consume :
    (h succ at now j : String) (r : RefreshTokenRecord) (s : RefreshTokens)
    → get h s ≡ some r
    → is_consumed r ≡ false
    → get j (consume h succ at now s).1
      ≡ (if h == j then some (spent succ (or_text at now) r) else get j s)
unfolding get consume
get-consume h succ at now j r s found unspent =
    ground (arith, lookup-insert h j (spent succ (or_text at now) r) s)

-- A consume changes nothing, or finds its row unspent.
pub consume-cases :
    (h succ at now : String) (s : RefreshTokens)
    → (consume h succ at now s ≡ (none, s))
      ⊎ ((r : RefreshTokenRecord) × (get h s ≡ some r)
          × (is_consumed r ≡ false)
          × ((consume h succ at now s).0 ≡ some r))
consume-cases h succ at now s = elim (Option-cases (get h s)) [
  | inl missing ↦ inl (consume_missing h succ at now s missing)
  | inr (r, found) ↦ elim (Bool-cases (is_consumed r)) [
    | inl used ↦ inl (consume_spent h succ at now r s found used)
    | inr unspent ↦ inr (r, found, unspent, consume_unspent h succ at now r s found unspent)
  ]
]
