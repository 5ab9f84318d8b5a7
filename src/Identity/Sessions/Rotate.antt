-- ===== src/Identity/Sessions/Rotate.antt =====
-- `SessionService.rotate` and `_after_failed_consume`. The part of `rotate` behind its first read
-- is a function of its own, `rotate_live`, because another request can write in between.
use webbpulse_python.Base.{
  ℕ, ◌+◌, Bool, false, not, ◌&&◌, ◌||◌, String, Option, none, some, ◌==◌, leb, ltb, max,
  if◌then◌else◌, or_text, is_some,
}
use webbpulse_python.Runtime.{Runtime, iso, parse}
use webbpulse_python.Identity.RefreshTokens.{
  RefreshTokenRecord, RefreshTokens, get, consume, revoke_family,
}
use webbpulse_python.Identity.UserAgent.{
  client_from_user_agent, platform_from_user_agent, browser_from_user_agent,
}
use webbpulse_python.Identity.Sessions.Defs.{
  Settings, IssuedRefresh, RotationOutcome, rotated, replayed, reuse, expired, revoked, unknown,
  RotationResult, Generation, unknown_device, family_started_at, auth_time_of, past_absolute_cap,
  is_expired, mint,
}

-- What one request draws: the two tokens that it may mint, and its reading of the clock.
pub record Draws : Type 0 where
  pub token : String
  pub replay_token : String
  pub wall : ℕ

-- `RotationResult.ok`
abbrev pub is_ok : RotationResult → Bool
is_ok r = is_some r.issued

-- A result that names a row's family and issues nothing.
abbrev pub refusal : RotationOutcome → RefreshTokenRecord → ℕ → RotationResult
refusal outcome r n = record {
  outcome = outcome;
  issued = none;
  family_id = r.family_id;
  user_id = r.user_id;
  revoked = n;
}

abbrev pub issue : RotationOutcome → IssuedRefresh → RefreshTokenRecord → RotationResult
issue outcome i r = record {
  outcome = outcome;
  issued = some i;
  family_id = r.family_id;
  user_id = r.user_id;
  revoked = 0;
}

abbrev pub unknown_token : RotationResult
unknown_token = record {
  outcome = unknown;
  issued = none;
  family_id = "";
  user_id = "";
  revoked = 0;
}

-- `revoke_family` of a row's family, and the refusal that reports how many rows it revoked.
abbrev pub revoke_and_refuse :
    RotationOutcome → RefreshTokenRecord → RefreshTokens → RotationResult × RefreshTokens
revoke_and_refuse outcome r s =
    let (n, s') = revoke_family r.family_id s in (refusal outcome r n, s')

module _ (rt : Runtime) (cfg : Settings) (d : Draws) where
  unfoldable pub successor_of : RefreshTokenRecord → String → String → ℕ → Generation
  successor_of r ip user_agent moment = record {
    family_id = r.family_id;
    user_id = r.user_id;
    generation = r.generation + 1;
    device = or_text r.device unknown_device;
    ip = or_text r.ip_first_seen ip;
    family_started_at = family_started_at rt d.wall r;
    now = moment;
    auth_time = auth_time_of rt d.wall r;
    amr = r.amr;
    ip_last_seen = or_text ip (or_text r.ip_last_seen r.ip_first_seen);
    client = or_text r.client (client_from_user_agent rt user_agent);
    platform = or_text r.platform (platform_from_user_agent rt user_agent);
    browser = or_text r.browser (browser_from_user_agent rt user_agent);
  }

  unfoldable pub replay_of : RefreshTokenRecord → RefreshTokenRecord → ℕ → Generation
  replay_of current successor moment = record {
    family_id = current.family_id;
    user_id = current.user_id;
    generation = successor.generation;
    device = or_text current.device unknown_device;
    ip = current.ip_first_seen;
    family_started_at = family_started_at rt d.wall current;
    now = moment;
    auth_time = max (auth_time_of rt d.wall current) (auth_time_of rt d.wall successor);
    amr = current.amr;
    ip_last_seen =
        or_text successor.ip_last_seen (or_text current.ip_last_seen current.ip_first_seen);
    client = or_text successor.client current.client;
    platform = or_text successor.platform current.platform;
    browser = or_text successor.browser current.browser;
  }

  -- `consumed_at is not None and grace > 0 and moment - consumed_at <= grace and successor_hash`
  unfoldable pub within_grace : RefreshTokenRecord → ℕ → Bool
  within_grace current moment = elim (parse rt current.consumed_at) [
    | none ↦ false
    | some consumed_at ↦
        ltb 0 cfg.refresh_reuse_grace
        && (leb moment (consumed_at + cfg.refresh_reuse_grace)
            && not (current.successor_hash == ""))
  ]

  unfoldable pub replay :
      RefreshTokenRecord
      → Option RefreshTokenRecord
      → ℕ
      → RefreshTokens
      → RotationResult × RefreshTokens
  replay current none moment s = revoke_and_refuse reuse current s
  replay current (some successor) moment s =
      let (i, s') = mint rt cfg d.replay_token d.wall (replay_of current successor moment) s in
      (issue replayed i current, s')

  unfoldable pub grace_or_reuse :
      RefreshTokenRecord → ℕ → RefreshTokens → RotationResult × RefreshTokens
  unfolding within_grace replay
  grace_or_reuse current moment s =
      if within_grace current moment
      then replay current (get current.successor_hash s) moment s
      else revoke_and_refuse reuse current s

  -- The row as it is after the consume lost: another request may have written it since.
  unfoldable pub lost_row :
      Option RefreshTokenRecord → ℕ → RefreshTokens → RotationResult × RefreshTokens
  lost_row none moment s = (unknown_token, s)
  lost_row (some current) moment s =
      if current.revoked then (refusal revoked current 0, s) else grace_or_reuse current moment s

  unfoldable pub after_failed_consume : String → ℕ → RefreshTokens → RotationResult × RefreshTokens
  after_failed_consume token_hash moment s = lost_row (get token_hash s) moment s

  -- The result of the conditional consume decides: this request spent the token, or another did.
  unfoldable pub after_consume :
      String
      → RefreshTokenRecord
      → IssuedRefresh
      → ℕ
      → Option RefreshTokenRecord × RefreshTokens
      → RotationResult × RefreshTokens
  after_consume token_hash r i moment (none, s) = after_failed_consume token_hash moment s
  after_consume token_hash r i moment (some _, s) = (issue rotated i r, s)

  -- `rotate` once the presented row has passed its checks: mint, then the conditional consume.
  unfoldable pub rotate_live :
      String
      → RefreshTokenRecord
      → String
      → String
      → ℕ
      → RefreshTokens
      → RotationResult × RefreshTokens
  rotate_live token_hash r ip user_agent moment s =
      let (i, s₁) = mint rt cfg d.token d.wall (successor_of r ip user_agent moment) s in
      after_consume token_hash r i moment
        (consume token_hash (rt.sha256 i.token) (iso rt moment) (iso rt d.wall) s₁)

  -- The row that the token names: unknown, revoked, expired or past the cap, or live.
  unfoldable pub rotate_row :
      String
      → Option RefreshTokenRecord
      → String
      → String
      → ℕ
      → RefreshTokens
      → RotationResult × RefreshTokens
  rotate_row token_hash none ip user_agent moment s = (unknown_token, s)
  rotate_row token_hash (some r) ip user_agent moment s =
      if r.revoked
      then (refusal revoked r 0, s)
      else if is_expired r.expires_at moment || past_absolute_cap rt cfg d.wall r moment
      then revoke_and_refuse expired r s
      else rotate_live token_hash r ip user_agent moment s

  unfoldable pub rotate :
      (presented ip user_agent : String) → ℕ → RefreshTokens → RotationResult × RefreshTokens
  rotate presented ip user_agent moment s =
      rotate_row (rt.sha256 presented) (get (rt.sha256 presented) s) ip user_agent moment s
