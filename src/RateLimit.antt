-- ===== src/RateLimit.antt =====
-- src/webbpulse/ratelimit.py: fixed windows, request classes and plan tiers over one DynamoDB table.
pub mod Table
pub mod Decision
pub mod Classes
pub mod Fixed
pub mod Window
pub mod Tiers
pub mod Leases
pub mod Settle
pub mod Tiered
pub mod Choice
