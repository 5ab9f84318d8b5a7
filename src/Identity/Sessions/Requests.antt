-- ===== src/Identity/Sessions/Requests.antt =====
-- Sequences of service calls. A request carries the arguments of a method and the values that the
-- call draws; `run` serves a list of them, in the order in which they reach the store.
use webbpulse_python.Base.{
  ℕ, false, String, Option, none, some, List, [], ◌∷◌, ◌≡◌, ◌==◌, not, if_rule, mem_text, All,
}
use webbpulse_python.Base.Assoc.{values}
use webbpulse_python.Runtime.{Runtime}
use webbpulse_python.Identity.RefreshTokens.{
  RefreshTokenRecord, RefreshTokens, get, spent, revoke_record, is_consumed, revoke_families,
  revoke_all_for_device, families_of_device,
}
use webbpulse_python.Identity.RefreshTokens
use webbpulse_python.Identity.RefreshTokens.Rows.{
  EachRow, EachRow-put, EachRow-revoke_family, EachRow-revoke_all_for_user,
  EachRow-set_family_auth_time,
}
use webbpulse_python.Identity.Sessions.Defs.{Settings, minted, mint, start_family, first_generation}
use webbpulse_python.Identity.Sessions.Rotate.{Draws, successor_of, replay_of, rotate}
use webbpulse_python.Identity.Sessions.Manage.{
  record_reauthentication, revoke_family, revoke_device, revoke_named, revoke_all_for_user,
  revoke_row, revoke_presented, list_for_user, owned_families, revoke_owned_family,
}
use webbpulse_python.Identity.Sessions.Keeps.{rotate-EachRow}

pub record SignIn : Type 0 where
  pub token : String
  pub family_id : String
  pub wall : ℕ
  pub user_id : String
  pub device : String
  pub ip : String
  pub user_agent : String
  pub moment : ℕ
  pub auth_time : Option ℕ
  pub amr : List String

pub record Refresh : Type 0 where
  pub draws : Draws
  pub presented : String
  pub ip : String
  pub user_agent : String
  pub moment : ℕ

pub data Request : Type 0 where
  signs_in : SignIn → Request
  refreshes : Refresh → Request
  steps_up : String → ℕ → Request
  logs_out : String → Request
  revokes : String → Request
  revokes_device : String → String → Request
  revokes_all : String → Option (List String) → String → Request
  revokes_owned : (user_id family_id : String) (wall moment : ℕ) → Request

module _ (rt : Runtime) (cfg : Settings) where
  unfoldable pub after : Request → RefreshTokens → RefreshTokens
  after (signs_in q) s =
      (start_family rt cfg q.token q.family_id q.wall q.user_id q.device q.ip q.user_agent q.moment
        q.auth_time q.amr s).1
  after (refreshes q) s = (rotate rt cfg q.draws q.presented q.ip q.user_agent q.moment s).1
  after (steps_up f t) s = (record_reauthentication f t s).1
  after (logs_out presented) s = (revoke_presented rt presented s).1
  after (revokes f) s = (revoke_family f s).1
  after (revokes_device u d) s = (revoke_device u d s).1
  after (revokes_all u fs e) s = (revoke_all_for_user u fs e s).1
  after (revokes_owned u f wall moment) s = (revoke_owned_family rt cfg wall u f moment s).1

  unfoldable pub run : List Request → RefreshTokens → RefreshTokens
  run [] s = s
  run (q ∷ qs) s = run qs (after q s)

  module _ (P : String → RefreshTokenRecord → Type 0) where
    -- A property that revoking, spending and a step-up leave in place.
    pub record IsStable : Type 0 where
      pub on_revoke : (h : String) (r : RefreshTokenRecord) → P h r → P h (revoke_record r)
      pub on_spend :
          (h succ at : String) (r : RefreshTokenRecord)
          → P h r
          → is_consumed r ≡ false
          → P h (spent succ at r)
      pub on_step_up :
          (h : String) (t : ℕ) (r : RefreshTokenRecord) → P h r → P h (record r { auth_time = t })

    -- The rows that a request may mint have the property.
    abbrev pub MintsGood : Request → Type 0
    MintsGood (signs_in q) = P (rt.sha256 q.token) (
        minted rt cfg q.token q.wall (
          first_generation rt q.family_id q.user_id q.device q.ip q.user_agent q.moment q.auth_time
            q.amr))
    MintsGood (refreshes q) =
        ((h : String) (r : RefreshTokenRecord) (ip user_agent : String) (moment : ℕ)
          → P h r
          → r.revoked ≡ false
          → P (rt.sha256 q.draws.token) (
              minted rt cfg q.draws.token q.draws.wall
                (successor_of rt cfg q.draws r ip user_agent moment)))
        × ((h h' : String) (r r' : RefreshTokenRecord) (moment : ℕ)
            → P h r
            → P h' r'
            → r.revoked ≡ false
            → P (rt.sha256 q.draws.replay_token) (
                minted rt cfg q.draws.replay_token q.draws.wall
                  (replay_of rt cfg q.draws r r' moment)))
    MintsGood _ = Unit

    module _ (stable : IsStable) where
      families-EachRow :
          (fs : List String) (s : RefreshTokens) → EachRow P s → EachRow P (revoke_families fs s).1
      unfolding revoke_families
      families-EachRow [] s each = each
      families-EachRow (f ∷ fs) s each =
          families-EachRow fs (RefreshTokens.revoke_family f s).1
            (EachRow-revoke_family P stable.on_revoke f s each)

      named-EachRow :
          (fs : List String) (e : String) (s : RefreshTokens)
          → EachRow P s
          → EachRow P (revoke_named fs e s).1
      unfolding revoke_named
      named-EachRow [] e s each = each
      named-EachRow (f ∷ fs) e s each = named-EachRow fs e _ (
          if_rule (λ (x : ℕ × RefreshTokens). EachRow P x.1) (f == e) _ _ (λ _. each)
            (λ _. EachRow-revoke_family P stable.on_revoke f s each))

      revoke_row-EachRow :
          (o : Option RefreshTokenRecord) (s : RefreshTokens)
          → EachRow P s
          → EachRow P (revoke_row o s).1
      unfolding revoke_row
      revoke_row-EachRow none s each = each
      revoke_row-EachRow (some r) s each =
          EachRow-revoke_family P stable.on_revoke r.family_id s each

      -- A stable property of every row holds after any request that mints rows with it.
      pub after-EachRow :
          (q : Request) (s : RefreshTokens) → MintsGood q → EachRow P s → EachRow P (after q s)
      unfolding after revoke_presented start_family mint minted record_reauthentication
          revoke_family revoke_device revoke_all_for_device revoke_all_for_user revoke_owned_family
      after-EachRow (signs_in q) s good each = EachRow-put P _ s each good
      after-EachRow (refreshes q) s good each =
          rotate-EachRow rt cfg q.draws P stable.on_revoke stable.on_spend good.0 good.1 q.presented
            q.ip q.user_agent q.moment s each
      after-EachRow (steps_up f t) s good each =
          if_rule (λ (x : ℕ × RefreshTokens). EachRow P x.1) (f == "") _ _ (λ _. each)
            (λ _. EachRow-set_family_auth_time P f t s (λ h r. stable.on_step_up h t r) each)
      after-EachRow (logs_out presented) s good each = revoke_row-EachRow _ s each
      after-EachRow (revokes f) s good each = EachRow-revoke_family P stable.on_revoke f s each
      after-EachRow (revokes_device u d) s good each =
          families-EachRow (families_of_device u d (values s)) s each
      after-EachRow (revokes_all u none e) s good each =
          EachRow-revoke_all_for_user P stable.on_revoke u e s each
      after-EachRow (revokes_all u (some fs) e) s good each = named-EachRow fs e s each
      after-EachRow (revokes_owned u f wall moment) s good each =
          if_rule (λ (x : Option ℕ × RefreshTokens). EachRow P x.1) (f == "") _ _ (λ _. each)
            λ _.
              if_rule (λ (x : Option ℕ × RefreshTokens). EachRow P x.1)
                (not
                  (mem_text f (owned_families rt cfg wall (list_for_user rt cfg wall u moment s))))
                _ _ (λ _. each) (λ _. EachRow-revoke_family P stable.on_revoke f s each)

      pub run-EachRow :
          (qs : List Request) (s : RefreshTokens)
          → All MintsGood qs
          → EachRow P s
          → EachRow P (run qs s)
      unfolding run
      run-EachRow [] s good each = each
      run-EachRow (q ∷ qs) s good each =
          run-EachRow qs (after q s) good.1 (after-EachRow q s good.0 each)
