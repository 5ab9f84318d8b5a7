-- ===== src/Identity/Sessions/Peek.antt =====
-- `peek` against `rotate`: a session that `peek` shows is one that a refresh would carry on.
use webbpulse_python.Base.{
  ℕ, false, String, Option, none, some, ◌≡◌, ◌≢◌, ◌==◌, arith, refl, if◌then◌else◌,
}
use webbpulse_python.Runtime.{Runtime}
use webbpulse_python.Identity.RefreshTokens.{RefreshTokenRecord, RefreshTokens, get, is_consumed}
use webbpulse_python.Identity.Sessions.Defs.{
  Settings, IssuedRefresh, PresentedSession, rotated, mint, auth_time_of, unknown_device,
}
use webbpulse_python.Identity.Sessions.Rotate.{Draws, successor_of, rotate}
use webbpulse_python.Identity.Sessions.Manage.{peek_row, peek_found, peek}
use webbpulse_python.Identity.Sessions.Theft.{IsLive, rotate_row-live}
use webbpulse_python.Identity.Sessions.Race.{rotate_live-wins}

-- The token that a refresh issues carries on the session that was shown.
pub record CarriesOn (p : PresentedSession) (i : IssuedRefresh) : Type 0 where
  pub user : i.user_id ≡ p.user_id
  pub family : i.family_id ≡ p.family_id
  pub login : i.auth_time ≡ p.auth_time
  pub methods : i.amr ≡ p.amr
  pub label : i.device ≡ p.device

module _ (rt : Runtime) (cfg : Settings) (d : Draws) where
  abbrev Shown : PresentedSession → RefreshTokenRecord → ℕ → Type 0
  Shown p r m =
      IsLive rt cfg d.wall m r
      × (is_consumed r ≡ false)
      × (p.user_id ≡ r.user_id)
      × (p.family_id ≡ r.family_id)
      × (p.auth_time ≡ auth_time_of rt d.wall r)
      × (p.amr ≡ r.amr)
      × (p.device ≡ (if r.device == "" then unknown_device else r.device))

  peek_row-Shown :
      (r : RefreshTokenRecord) (m : ℕ) (p : PresentedSession)
      → peek_row rt cfg d.wall r m ≡ some p
      → Shown p r m
  unfolding peek_row
  peek_row-Shown r m p e = ground arith

  peek_found-row :
      (o : Option RefreshTokenRecord) (m : ℕ) (p : PresentedSession)
      → peek_found rt cfg d.wall o m ≡ some p
      → (r : RefreshTokenRecord) × (o ≡ some r) × (peek_row rt cfg d.wall r m ≡ some p)
  unfolding peek_found
  peek_found-row none m p e = absurd (cc)
  peek_found-row (some r) m p e = (r, refl, e)

  peek-found :
      (presented : String) (m : ℕ) (s : RefreshTokens) (p : PresentedSession)
      → peek rt cfg d.wall presented m s ≡ some p
      → peek_found rt cfg d.wall (get (rt.sha256 presented) s) m ≡ some p
  unfolding peek
  peek-found presented m s p e = ground arith

  -- If `peek` shows a session, then presenting the same token at the same moment, with a new token
  -- of another hash, rotates, and the token issued has the user, family, login time, methods and
  -- device that were shown.
  pub peek_then_rotate :
      (presented ip ua : String) (m : ℕ) (s : RefreshTokens) (p : PresentedSession)
      → peek rt cfg d.wall presented m s ≡ some p
      → rt.sha256 d.token ≢ rt.sha256 presented
      → let (result, s') = rotate rt cfg d presented ip ua m s in
        (i : IssuedRefresh) × (result.outcome ≡ rotated) × (result.issued ≡ some i) × CarriesOn p i
  unfolding rotate mint successor_of
  peek_then_rotate presented ip ua m s p shown other =
      let (r, found, row) = peek_found-row _ m p (peek-found presented m s p shown) in
      let h = rt.sha256 presented in
      let (live, unspent, user, family, login, methods, label) = peek_row-Shown r m p row in
      let (answer, there) = rotate_live-wins rt cfg d h r r ip ua m s found unspent other in
      let i = (mint rt cfg d.token d.wall (successor_of rt cfg d r ip ua m) s).0 in
      rw (found) (
        rw (rotate_row-live rt cfg d h r ip ua m s live) (
          rw answer (
            i,
            refl,
            refl,
            record {
              user = ground arith;
              family = ground arith;
              login = ground arith;
              methods = ground arith;
              label = ground arith;
            },
          )))
