-- ===== src/Identity.antt =====
-- src/webbpulse/identity: app-managed identity.
pub mod RefreshTokens
pub mod UserAgent
pub mod Sessions
pub mod IdentityTokens
pub mod Links
pub mod Lockout
pub mod Totp
pub mod Claims
pub mod DeviceCodes
pub mod DeviceGrants
pub mod DeviceGrant
pub mod ShareTokens
