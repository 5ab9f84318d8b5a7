-- ===== src/Scim.antt =====
-- src/webbpulse/identity/scim: the provisioning API's filter language.
pub mod Filters
