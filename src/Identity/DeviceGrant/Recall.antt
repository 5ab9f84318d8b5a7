-- ===== src/Identity/DeviceGrant/Recall.antt =====
-- How old an answer of the liveness cache can be.
use mathlib.Core.Path.{subst}
use webbpulse_python.Base.{
  ℕ, ◌+◌, ◌<◌, Bool, true, false, not, String, Option, none, some, List, [], ◌∷◌, ◌≡◌, ◌⊎◌, inl,
  inr, refl, sym, ◌∙◌, ap, arith, ◌==◌, eq_iff, leb, ltb, ltb→lt, if◌then◌else◌, if_rule, if_true,
  length, All, All-map,
}
use webbpulse_python.Identity.Claims.{Claims}
use webbpulse_python.Identity.DeviceGrants.{DeviceGrants, get}
use webbpulse_python.Identity.DeviceGrant.Liveness.{
  device_grant_is_live, record_is_live, Remembered, is_for, recall, remember, Liveness, asked_again,
  answered, check_liveness,
}

-- One call of the cache, with what the grants table held and the clocks read.
pub record LivenessCall : Type 0 where
  pub claims : Claims
  pub moment : ℕ
  pub wall : ℕ
  pub grants : DeviceGrants

-- The call is one of the list.
abbrev pub Called : LivenessCall → List LivenessCall → Type 0
Called q [] = ⊥
Called q (x ∷ xs) = (x ≡ q) ⊎ Called q xs

device_grant_is_live-claims :
    (c c' : Claims) (wall : ℕ) (s : DeviceGrants)
    → c.grant == "device" ≡ true
    → c'.grant == "device" ≡ true
    → c.sid ≡ c'.sid
    → c.sub ≡ c'.sub
    → device_grant_is_live c wall s ≡ device_grant_is_live c' wall s
unfolding device_grant_is_live
device_grant_is_live-claims c c' wall s e e' sid sub =
    rw (e, e')
      (ap (λ sid. if sid == "" then false else record_is_live c.sub wall (get sid s)) sid
        ∙ ap (λ sub. if c'.sid == "" then false else record_is_live sub wall (get c'.sid s)) sub)

module _ (l : Liveness) where
  -- The cache after some calls, the newest first.
  unfoldable pub cache_after : List LivenessCall → List Remembered
  cache_after [] = []
  cache_after (q ∷ qs) = (check_liveness l q.claims q.moment q.wall q.grants (cache_after qs)).1

  -- A remembered answer is that of one of the calls.
  abbrev From : List LivenessCall → Remembered → Type 0
  From qs m =
      (q : LivenessCall) × Called q qs
      × (q.claims.grant == "device" ≡ true)
      × (q.claims.sid ≡ m.sid)
      × (q.claims.sub ≡ m.sub)
      × (m.until ≡ q.moment + l.ttl)
      × (m.answer ≡ device_grant_is_live q.claims q.wall q.grants)

  later : (x : LivenessCall) (qs : List LivenessCall) (m : Remembered) → From qs m → From (x ∷ qs) m
  later x qs m (q, called, a, b, c, d, e) = (q, inr called, a, b, c, d, e)

  remember-All :
      (P : Remembered → Type 0) (m : Remembered) (ms : List Remembered)
      → P m
      → All P ms
      → All P (remember m ms)
  unfolding remember
  remember-All P m [] p all = (p, tt)
  remember-All P m (x ∷ xs) p all =
      if_rule (All P) (is_for m.sid m.sub x) _ _ (λ _. (p, all.1))
        (λ _. (all.0, remember-All P m xs p all.1))

  recall-All :
      (P : Remembered → Type 0) (sid sub : String) (ms : List Remembered) (m : Remembered)
      → All P ms
      → recall sid sub ms ≡ some m
      → P m × (is_for sid sub m ≡ true)
  unfolding recall
  recall-All P sid sub [] m all e = absurd (cc (e))
  recall-All P sid sub (x ∷ xs) m all e =
      if_rule (λ (o : Option Remembered). o ≡ some m → P m × (is_for sid sub m ≡ true))
        (is_for sid sub x) _ _
        (λ hit c. let is : x ≡ m = cc (c) in (subst P is all.0, ap (is_for sid sub) (sym is) ∙ hit))
        (λ _ c. recall-All P sid sub xs m all.1 c) e

  asked_again-From :
      (q : LivenessCall) (qs : List LivenessCall) (cache : List Remembered)
      → q.claims.grant == "device" ≡ true
      → All (From qs) cache
      → All (From (q ∷ qs)) (asked_again l q.claims q.moment q.wall q.grants cache).1
  asked_again-From q qs cache device all =
      let all' : All (From (q ∷ qs)) cache = All-map (later q qs) cache all in
      if_rule (All (From (q ∷ qs))) (ltb 0 l.ttl) _ _
        (λ _.
          remember-All (From (q ∷ qs)) _ _ (q, inl refl, device, refl, refl, refl, refl)
            (if_rule (All (From (q ∷ qs))) (leb l.max_entries (length cache)) _ _ (λ _. tt)
              (λ _. all')))
        (λ _. all')

  answered-From :
      (q : LivenessCall) (qs : List LivenessCall) (cache : List Remembered) (o : Option Remembered)
      → q.claims.grant == "device" ≡ true
      → All (From qs) cache
      → All (From (q ∷ qs)) (answered l q.claims q.moment q.wall q.grants cache o).1
  answered-From q qs cache none device all = asked_again-From q qs cache device all
  answered-From q qs cache (some hit) device all =
      if_rule (λ (x : Bool × List Remembered). All (From (q ∷ qs)) x.1) (ltb q.moment hit.until) _ _
        (λ _. All-map (later q qs) cache all) (λ _. asked_again-From q qs cache device all)

  cache_after-From : (qs : List LivenessCall) → All (From qs) (cache_after qs)
  unfolding cache_after check_liveness
  cache_after-From [] = tt
  cache_after-From (q ∷ qs) =
      if_rule (λ (x : Bool × List Remembered). All (From (q ∷ qs)) x.1)
        (not (q.claims.grant == "device")) _ _
        (λ _. All-map (later q qs) (cache_after qs) (cache_after-From qs))
        (λ device.
          answered-From q qs (cache_after qs) (recall q.claims.sid q.claims.sub (cache_after qs))
            (ground (arith, device)) (cache_after-From qs))

  -- What a call answers is what the grants table says now, or what it said at one of the calls
  -- before, of the same session and person, less than the cache's time to live ago.
  abbrev pub Fresh :
      (c : Claims) (moment wall : ℕ) → DeviceGrants → List LivenessCall → Bool → Type 0
  Fresh c moment wall s qs answer =
      (answer ≡ device_grant_is_live c wall s)
      ⊎ ((q : LivenessCall) × Called q qs
          × (answer ≡ device_grant_is_live c q.wall q.grants)
          × (moment < q.moment + l.ttl))

  answered-Fresh :
      (c : Claims) (moment wall : ℕ) (s : DeviceGrants) (qs : List LivenessCall)
      (o : Option Remembered)
      → c.grant == "device" ≡ true
      → recall c.sid c.sub (cache_after qs) ≡ o
      → Fresh c moment wall s qs (answered l c moment wall s (cache_after qs) o).0
  answered-Fresh c moment wall s qs none device e = inl refl
  answered-Fresh c moment wall s qs (some hit) device e =
      if_rule (λ (x : Bool × List Remembered). Fresh c moment wall s qs x.0) (ltb moment hit.until)
        _ _
        (λ in_time.
          let ((q, called, grant, sid, sub, until, answer), for) =
            recall-All (From qs) c.sid c.sub (cache_after qs) hit (cache_after-From qs) e in
          inr (
            q,
            called,
            answer
                ∙ device_grant_is_live-claims q.claims c q.wall q.grants grant device
                    (sid ∙ (eq_iff hit.sid c.sid).0 (ground (arith, for)))
                    (sub ∙ (eq_iff hit.sub c.sub).0 (ground (arith, for))),
            ltb→lt _ _ (subst (λ n. ltb moment n ≡ true) until in_time),
          ))
        (λ _. inl refl)

  -- After any calls of the liveness cache, an answer is that of the grants table now, or that of
  -- the table at one of those calls, with the same claims, less than the time to live before now:
  -- an ended session is let in no longer than that.
  pub check_liveness-Fresh :
      (c : Claims) (moment wall : ℕ) (s : DeviceGrants) (qs : List LivenessCall)
      → Fresh c moment wall s qs (check_liveness l c moment wall s (cache_after qs)).0
  unfolding check_liveness device_grant_is_live
  check_liveness-Fresh c moment wall s qs =
      if_rule (λ (x : Bool × List Remembered). Fresh c moment wall s qs x.0)
        (not (c.grant == "device")) _ _
        (λ other. inl (sym (if_true (not (c.grant == "device")) _ _ other)))
        (λ device.
          answered-Fresh c moment wall s qs (recall c.sid c.sub (cache_after qs))
            (ground (arith, device)) refl)
