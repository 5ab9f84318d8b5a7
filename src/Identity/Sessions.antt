-- ===== src/Identity/Sessions.antt =====
-- src/webbpulse/identity/sessions.py: `SessionService` over the in-memory refresh token store.
-- A method is a function from the store to its result and the store after it. The values that the
-- code draws (`new_token()`, `uuid4().hex`) and the reading `wall` of the clock behind `now_iso()`
-- and the last fallback of `_family_started_at` are arguments. Log lines are left out.
pub mod Defs
pub mod Rotate
pub mod Manage
pub mod Keeps
pub mod Requests
pub mod Reuse
pub mod Revocation
pub mod Cap
pub mod Theft
pub mod Race
pub mod Peek
