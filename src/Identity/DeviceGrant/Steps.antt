-- ===== src/Identity/DeviceGrant/Steps.antt =====
-- The rules for every request, and for sequences of them: what each request keeps of both tables,
-- and what holds of the tokens that it issues.
use mathlib.Core.Path.{subst}
use webbpulse_python.Base.{
  ℕ, true, String, Option, none, some, List, [], ◌∷◌, ◌≡◌, ◌==◌, Result, ok, raised, All,
}
use webbpulse_python.Base.Each.{Each, Each-remove_where}
use webbpulse_python.Runtime.{Runtime}
use webbpulse_python.Identity.DeviceCodes
use webbpulse_python.Identity.DeviceCodes.{
  DeviceCodes, DeviceCodeRecord, DeviceCodeStatus, is_pending, is_approved, past, approved, denied,
  record_poll, slow_down, find_by_user_code, decided, poll_row, slow_row, consume_row, decide_row,
  stored, first_live, live_record, holds_code, record_failed_lookup,
}
use webbpulse_python.Identity.DeviceGrants
use webbpulse_python.Identity.DeviceGrants.{DeviceGrantRecord, DeviceGrants, live}
use webbpulse_python.Identity.DeviceGrant.Defs.{
  DeviceSettings, Hooks, Keys, DeviceGrantStores, TokenBody, token_body, narrowed,
}
use webbpulse_python.Identity.DeviceGrant.Login.{new_grant, poll, code_record}
use webbpulse_python.Identity.DeviceGrant.Requests.{
  DeviceRequest, starts, approves, polls, refreshes, revokes_token, revokes_grant, revokes_all,
  purges, issued, step, run,
}
use webbpulse_python.Base.Rows.{Rows}
use webbpulse_python.Identity.DeviceGrant.Rules.{
  Holds, Kept, Rows-revoke_token, Rows-revoke_grant, Rows-revoke_each, Rows-delete_each,
  refresh-Good,
}
use webbpulse_python.Identity.DeviceGrants.{list_for_user, revoke_all_for_user}
use webbpulse_python.Identity.DeviceGrant.Refresh.{revoke_all, refresh}
use webbpulse_python.Identity.DeviceGrant.Scopes.{Sub}
use webbpulse_python.Identity.DeviceGrant.Codes.{start-Each, approve-Each}
use webbpulse_python.Identity.DeviceGrant.Polls.{poll-Opened}

-- A property of the codes' rows that no request loses.
pub record KeptCodes (rt : Runtime) (cfg : DeviceSettings) (P : DeviceCodeRecord → Type 0)
    : Type 0 where
  pub polled : (r : DeviceCodeRecord) (n : ℕ) → P r → P (record r { last_polled_at = n })
  pub slowed : (r : DeviceCodeRecord) (n : ℕ) → P r → P (record r { interval = n })
  pub fresh :
      (device_code user_code client_id : String) (scopes : List String) (moment : ℕ)
      → Sub cfg.device_scopes_supported scopes
      → P (code_record rt cfg device_code user_code client_id scopes moment)
  pub narrows :
      (status : DeviceCodeStatus) (user_id : String) (held : Option (List String)) (auth_time : ℕ)
      (r x : DeviceCodeRecord)
      → P r
      → P x
      → P (decided status user_id (narrowed held x.scopes) auth_time r)
  pub empties :
      (status : DeviceCodeStatus) (user_id : String) (auth_time : ℕ) (r : DeviceCodeRecord)
      → P r
      → P (decided status user_id [] auth_time r)

-- What holds of the tokens that a request issues, if it issues any.
abbrev pub Issues {ℓ} : (TokenBody → Type ℓ) → Option TokenBody → Type ℓ
Issues B none = Unit
Issues B (some b) = B b

issued-Issues : (B : TokenBody → Type 0) (x : Result TokenBody) → Holds B x → Issues B (issued x)
issued-Issues B (ok b) p = p
issued-Issues B (raised code) p = tt

-- The moment that a request stamps its tokens with, and its reading of the clock.
abbrev pub moments : DeviceRequest → ℕ × ℕ
moments (starts client_id requested draws moment wall) = (moment, wall)
moments (approves user_code user_id signature allow auth_time moment wall) = (moment, wall)
moments (polls device_code client_id draws moment wall) = (moment, wall)
moments (refreshes refresh_token client_id moment wall) = (moment, wall)
moments _ = (0, 0)

module _ (rt : Runtime) (cfg : DeviceSettings) (h : Hooks) (keys : Keys)
    (R : String → DeviceGrantRecord → Type 0) (kept : Kept R) (P : DeviceCodeRecord → Type 0)
    (codes : KeptCodes rt cfg P) (B : ℕ → ℕ → TokenBody → Type 0)
    (body : (moment wall : ℕ) (k next : String) (g : DeviceGrantRecord) (user : h.User)
      → R k g
      → live g wall ≡ true
      → B moment wall (token_body rt cfg h keys g user next moment)) where
  -- What a request must do to the grant that it opens.
  abbrev pub Opens : DeviceRequest → Type 0
  Opens (polls device_code client_id d moment wall) =
      (r : DeviceCodeRecord)
      → P r
      → R d.grant_id (new_grant rt cfg h keys r d moment)
        × ((user : h.User) (next : String)
            → B moment wall
                (token_body rt cfg h keys (new_grant rt cfg h keys r d moment) user next moment))
  Opens _ = Unit

  abbrev pub Both : DeviceGrantStores → Type 0
  Both s = Rows R s.grants × Each P s.codes.items

  abbrev pub StepSafe : DeviceRequest → DeviceGrantStores → Type 0
  StepSafe q s =
      Issues (B (moments q).0 (moments q).1) (step rt cfg h keys q s).0
      × Both (step rt cfg h keys q s).1

  pub step-Both : (q : DeviceRequest) (s : DeviceGrantStores) → Opens q → Both s → StepSafe q s
  unfolding step revoke_all revoke_all_for_user DeviceCodes.delete_all_for_user
      DeviceGrants.delete_all_for_user
  step-Both (starts c sc draws m w) s o (rows, each) = (
    tt,
    (
      rows,
      start-Each rt cfg h keys P codes.fresh codes.narrows codes.empties c sc draws m w s.codes
          each,
    ),
  )
  step-Both (approves uc u sig allow at m w) s o (rows, each) = (
    tt,
    (
      rows,
      approve-Each rt cfg h keys P codes.fresh codes.narrows codes.empties uc u sig allow at m w
          s.codes each,
    ),
  )
  step-Both (polls dc c d m w) s o (rows, each) =
      let x =
        poll-Opened rt cfg h keys R P codes.polled codes.slowed (B m w) d m o dc c w s each rows in
      (issued-Issues (B m w) (poll rt cfg h keys dc c d m w s).0 x.0, (x.1, x.2))
  step-Both (refreshes t c m w) s o (rows, each) =
      let x = refresh-Good rt cfg h keys R kept (B m w) m w (body m w) t c s.grants rows in
      (issued-Issues (B m w) (refresh rt cfg h keys t c m w s.grants).0 x.0, (x.1, each))
  step-Both (revokes_token t) s o (rows, each) =
      (tt, (Rows-revoke_token R kept rt t s.grants rows, each))
  step-Both (revokes_grant k u) s o (rows, each) =
      (tt, (Rows-revoke_grant R kept k u s.grants rows, each))
  step-Both (revokes_all u) s o (rows, each) =
      (tt, (Rows-revoke_each R kept (list_for_user u s.grants) s.grants rows, each))
  step-Both (purges u) s o (rows, each) = (
    tt,
    (
      Rows-delete_each R kept (list_for_user u s.grants) s.grants rows,
      Each-remove_where P (λ r. r.user_id == u) s.codes.items each,
    ),
  )

  pub run-Both :
      (qs : List DeviceRequest) (s : DeviceGrantStores)
      → All Opens qs
      → Both s
      → Both (run rt cfg h keys qs s)
  unfolding run
  run-Both [] s o both = both
  run-Both (q ∷ qs) s o both = run-Both qs (step rt cfg h keys q s).1 o.1 (step-Both q s o.0 both).1

  -- The tokens that a request issues behind a sequence of others.
  pub run-Issues :
      (qs : List DeviceRequest) (q : DeviceRequest) (s : DeviceGrantStores) (b : TokenBody)
      → All Opens qs
      → Opens q
      → Both s
      → (step rt cfg h keys q (run rt cfg h keys qs s)).0 ≡ some b
      → B (moments q).0 (moments q).1 b
  run-Issues qs q s b os o both e =
      subst (Issues (B (moments q).0 (moments q).1)) e
        (step-Both q (run rt cfg h keys qs s) o (run-Both qs s os both)).0
