-- ===== src/Identity/Sessions/Defs.antt =====
-- The records of sessions.py, and `SessionService._mint` and the readings that it rests on.
use webbpulse_python.Base.{
  ℕ, ◌+◌, ◌/◌, min, Bool, String, Option, none, some, List, [], leb, ltb, if◌then◌else◌, or_text,
  distinct_after,
}
use webbpulse_python.Runtime.{Runtime, microseconds, iso, parse}
use webbpulse_python.Identity.RefreshTokens.{RefreshTokenRecord, RefreshTokens, put}
use webbpulse_python.Identity.UserAgent.{
  client_from_user_agent, platform_from_user_agent, browser_from_user_agent,
}

-- The settings of a product that the service reads, in microseconds.
pub record Settings : Type 0 where
  pub refresh_token_ttl : ℕ
  pub refresh_absolute_ttl : ℕ
  pub refresh_reuse_grace : ℕ

pub record IssuedRefresh : Type 0 where
  pub token : String
  pub family_id : String
  pub user_id : String
  pub generation : ℕ
  pub expires_at : ℕ
  pub device : String
  pub auth_time : ℕ
  pub amr : List String

pub record PresentedSession : Type 0 where
  pub user_id : String
  pub family_id : String
  pub auth_time : ℕ
  pub amr : List String
  pub device : String

pub data RotationOutcome : Type 0 where
  rotated replayed reuse expired revoked unknown : RotationOutcome

pub record RotationResult : Type 0 where
  pub outcome : RotationOutcome
  pub issued : Option IssuedRefresh
  pub family_id : String
  pub user_id : String
  pub revoked : ℕ

-- The keyword arguments of `_mint`.
pub record Generation : Type 0 where
  pub family_id : String
  pub user_id : String
  pub generation : ℕ
  pub device : String
  pub ip : String
  pub family_started_at : ℕ
  pub now : ℕ
  pub auth_time : ℕ
  pub amr : List String
  pub ip_last_seen : String
  pub client : String
  pub platform : String
  pub browser : String

abbrev pub unknown_device : String
unknown_device = "unknown"

-- `is_expired` of storage.py
unfoldable pub is_expired : ℕ → ℕ → Bool
is_expired expires_at moment = leb expires_at (moment / microseconds)

module _ (rt : Runtime) where
  unfoldable pub family_started_at : ℕ → RefreshTokenRecord → ℕ
  family_started_at wall r = elim (parse rt r.family_started_at) [
    | some started ↦ started
    | none ↦ elim (parse rt r.created_at) [ some created ↦ created | none ↦ wall ]
  ]

  unfoldable pub auth_time_of : ℕ → RefreshTokenRecord → ℕ
  auth_time_of wall r =
      if ltb 0 r.auth_time then r.auth_time else family_started_at wall r / microseconds

  -- The first generation of a family. `auth_time` is the argument of that name, `none` when it is
  -- left out.
  unfoldable pub first_generation :
      (family_id user_id device ip user_agent : String) (moment : ℕ)
      → Option ℕ
      → List String
      → Generation
  first_generation family_id user_id device ip user_agent moment auth_time amr = record {
    family_id = family_id;
    user_id = user_id;
    generation = 1;
    device = or_text device unknown_device;
    ip = ip;
    family_started_at = moment;
    now = moment;
    auth_time = elim auth_time [ none ↦ moment / microseconds | some t ↦ t ];
    amr = distinct_after [] amr;
    ip_last_seen = ip;
    client = client_from_user_agent rt user_agent;
    platform = platform_from_user_agent rt user_agent;
    browser = browser_from_user_agent rt user_agent;
  }

  module _ (cfg : Settings) where
    unfoldable pub past_absolute_cap : ℕ → RefreshTokenRecord → ℕ → Bool
    past_absolute_cap wall r moment =
        leb (family_started_at wall r + cfg.refresh_absolute_ttl) moment

    unfoldable pub expiry : Generation → ℕ
    expiry g =
        min (g.now + cfg.refresh_token_ttl) (g.family_started_at + cfg.refresh_absolute_ttl)
        / microseconds

    -- The row that `_mint` writes.
    unfoldable pub minted : String → ℕ → Generation → RefreshTokenRecord
    minted token wall g = record {
      token_hash = rt.sha256 token;
      family_id = g.family_id;
      user_id = g.user_id;
      generation = g.generation;
      created_at = iso rt wall;
      expires_at = expiry g;
      consumed_at = "";
      successor_hash = "";
      revoked = Bool.false;
      device = g.device;
      ip_first_seen = g.ip;
      family_started_at = iso rt g.family_started_at;
      auth_time = g.auth_time;
      amr = g.amr;
      ip_last_seen = g.ip_last_seen;
      client = g.client;
      platform = g.platform;
      browser = g.browser;
    }

    unfoldable pub mint : String → ℕ → Generation → RefreshTokens → IssuedRefresh × RefreshTokens
    mint token wall g s = (
      record {
        token = token;
        family_id = g.family_id;
        user_id = g.user_id;
        generation = g.generation;
        expires_at = expiry g;
        device = g.device;
        auth_time = g.auth_time;
        amr = g.amr;
      },
      put (minted token wall g) s,
    )

    unfoldable pub start_family :
        (token family_id : String) (wall : ℕ) (user_id device ip user_agent : String) (moment : ℕ)
        → Option ℕ
        → List String
        → RefreshTokens
        → IssuedRefresh × RefreshTokens
    start_family token family_id wall user_id device ip user_agent moment auth_time amr s =
        mint token wall
          (first_generation family_id user_id device ip user_agent moment auth_time amr) s
