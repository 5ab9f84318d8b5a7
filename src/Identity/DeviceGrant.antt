-- ===== src/Identity/DeviceGrant.antt =====
-- `DeviceGrantService` of src/webbpulse/identity/device_grant.py, over the two device stores. Its
-- parts behind the first read of a row, `poll_record` and `refresh_grant`, are functions of their
-- own, because another request can write in between. A moment is in seconds; `wall` is the clock's
-- reading where the source takes no moment.
pub mod Defs
pub mod Login
pub mod Refresh
pub mod Liveness
pub mod Recall
pub mod Requests
pub mod Rules
pub mod Codes
pub mod Polls
pub mod Steps
pub mod Scopes
pub mod Permitted
pub mod Ended
pub mod Revoked
pub mod Deadline
pub mod Absent
pub mod Gone
pub mod Collect
pub mod Replay
pub mod Tokens
