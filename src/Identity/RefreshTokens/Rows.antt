-- ===== src/Identity/RefreshTokens/Rows.antt =====
-- A property of every row, and the rule by which it survives each write to the store.
use mathlib.Core.Path.{subst}
use webbpulse_python.Base.{
  ℕ, Bool, true, false, String, some, ◌≡◌, ◌==◌, eq_iff, or_text, inl, inr, sym, ◌∙◌, if◌then◌else◌,
}
use webbpulse_python.Base.Assoc.{map_option, if-some, map_option-some}
use webbpulse_python.Identity.RefreshTokens.{
  RefreshTokenRecord, RefreshTokens, get, put, consume, spent, revoke_family, revoke_record,
  is_consumed, revoke_all_for_user, revocable_in, revocable_of, set_family_auth_time, older_login,
}
use webbpulse_python.Identity.RefreshTokens.Laws.{
  get-put, get-revoke_family, get-revoke_all_for_user, get-consume, revoked_in, revoked_of,
  stepped_up, get-set_family_auth_time,
}

pub record EachRow (P : String → RefreshTokenRecord → Type 0) (s : RefreshTokens) : Type 0 where
  pub at : (h : String) (r : RefreshTokenRecord) → get h s ≡ some r → P h r

module _ (P : String → RefreshTokenRecord → Type 0) where
  put_row :
      (x : RefreshTokenRecord) (s : RefreshTokens) (h : String) (r : RefreshTokenRecord)
      → EachRow P s
      → P x.token_hash x
      → get h (put x s) ≡ some r
      → P h r
  put_row x s h r each new e =
      elim (if-some (x.token_hash == h) x r (get h s) (sym (get-put x h s) ∙ e)) [
        | inl (same, eq) ↦ subst (P h) eq (subst (λ k. P k x) ((eq_iff x.token_hash h).0 same) new)
        | inr (other, old) ↦ each.at h r old
      ]

  pub EachRow-put :
      (x : RefreshTokenRecord) (s : RefreshTokens)
      → EachRow P s
      → P x.token_hash x
      → EachRow P (put x s)
  EachRow-put x s each new = record { at = λ h r e. put_row x s h r each new e }

  -- A write that changes every value by one function.
  EachRow-change :
      (change : RefreshTokenRecord → RefreshTokenRecord) (s s' : RefreshTokens)
      → ((h : String) → get h s' ≡ map_option change (get h s))
      → ((h : String) (r : RefreshTokenRecord) → P h r → P h (change r))
      → EachRow P s
      → EachRow P s'
  EachRow-change change s s' law keep each = record {
    at = λ h r e.
        let (x, old, eq) = map_option-some change (get h s) r (sym (law h) ∙ e) in
        subst (P h) eq (keep h x (each.at h x old));
  }

  swept_row :
      (b : Bool) (h : String) (r x : RefreshTokenRecord) → P h r → P h x → P h (if b then x else r)
  swept_row true h r x p q = q
  swept_row false h r x p q = p

  module _ (keep : (h : String) (r : RefreshTokenRecord) → P h r → P h (revoke_record r)) where
    pub EachRow-revoke_family :
        (f : String) (s : RefreshTokens) → EachRow P s → EachRow P (revoke_family f s).1
    EachRow-revoke_family f s =
        EachRow-change (revoked_in f) s (revoke_family f s).1 (λ h. get-revoke_family f h s)
          (λ h r p. swept_row (revocable_in f r) h r (revoke_record r) p (keep h r p))

    pub EachRow-revoke_all_for_user :
        (u f : String) (s : RefreshTokens) → EachRow P s → EachRow P (revoke_all_for_user u f s).1
    EachRow-revoke_all_for_user u f s =
        EachRow-change (revoked_of u f) s (revoke_all_for_user u f s).1
          (λ h. get-revoke_all_for_user u f h s)
          (λ h r p. swept_row (revocable_of u f r) h r (revoke_record r) p (keep h r p))

  pub EachRow-set_family_auth_time :
      (f : String) (t : ℕ) (s : RefreshTokens)
      → ((h : String) (r : RefreshTokenRecord) → P h r → P h (record r { auth_time = t }))
      → EachRow P s
      → EachRow P (set_family_auth_time f t s).1
  EachRow-set_family_auth_time f t s keep =
      EachRow-change (stepped_up f t) s (set_family_auth_time f t s).1
        (λ h. get-set_family_auth_time f t h s)
        (λ h r p. swept_row (older_login f t r) h r (record r { auth_time = t }) p (keep h r p))

  pub EachRow-consume :
      (h succ at now : String) (x : RefreshTokenRecord) (s : RefreshTokens)
      → get h s ≡ some x
      → is_consumed x ≡ false
      → P h (spent succ (or_text at now) x)
      → EachRow P s
      → EachRow P (consume h succ at now s).1
  EachRow-consume h succ at now x s found unspent marked each = record {
    at = λ j r e.
        elim (if-some (h == j) (spent succ (or_text at now) x) r (get j s)
          (sym (get-consume h succ at now j x s found unspent) ∙ e)) [
            | inl (same, eq) ↦
                subst (P j) eq
                  (subst (λ k. P k (spent succ (or_text at now) x)) ((eq_iff h j).0 same) marked)
            | inr (other, old) ↦ each.at j r old
          ];
  }
