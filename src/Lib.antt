-- ===== src/Lib.antt =====
-- webbpulse-python: the identity and rate limiting core of the Python package in src/webbpulse.
--
-- The program is a library that services build on. Six parts of it are modelled here.
--
-- Refresh sessions (src/webbpulse/identity/sessions.py and storage.py). A sign-in starts a family of
-- refresh tokens; every refresh spends a token and mints its successor. SessionService keeps no
-- state: it reads and writes the refresh token store, which has one row for each token hash. A spent
-- token that comes back within a grace window is answered with another token; outside it the whole
-- family is revoked. Identity.RefreshTokens is RefreshTokenRecord and InMemoryRefreshTokenStore, a
-- dict as an association list. Identity.UserAgent is the device labels. Identity.Sessions.Defs is
-- the records, _mint and start_family; Identity.Sessions.Rotate is rotate and _after_failed_consume;
-- Identity.Sessions.Manage is every other method; Identity.Sessions.Requests is sequences of calls.
--
-- Account protection. Identity.IdentityTokens and Identity.Links are the store and LinkService of
-- src/webbpulse/identity/verification.py: single-use links for email verification and resets.
-- Identity.Lockout is src/webbpulse/identity/lockout.py with the functions of flows.py that ask it.
-- Identity.Totp is src/webbpulse/identity/totp.py with the factor store and _verify_totp of mfa.py.
--
-- Device logins (src/webbpulse/identity/device_grant.py and device_grant_storage.py). A command line
-- starts a login and polls; a person approves its user code in a browser; the poll then collects a
-- grant, whose refresh token rotates until a deadline. Identity.DeviceCodes and
-- Identity.DeviceGrants are InMemoryDeviceCodeStore and InMemoryDeviceGrantStore.
-- Identity.DeviceGrant.Defs is the records, user codes, token texts and the product's hooks;
-- Identity.DeviceGrant.Login is start, pending, decide and poll; Identity.DeviceGrant.Refresh is
-- refresh and the revocations; Identity.DeviceGrant.Liveness is device_grant_is_live and
-- DeviceGrantLiveness; Identity.DeviceGrant.Requests is device_approve and sequences of requests.
-- Identity.Claims is claims_scopes of scopes.py.
--
-- Rate limits (src/webbpulse/ratelimit.py). RateLimit.Fixed is RateLimiter: fixed windows anchored
-- to the clock or to a first request. RateLimit.Classes is LimitClass, classify and the exemptions
-- of the middleware. RateLimit.Tiers is the quotas and plans; RateLimit.Leases, RateLimit.Settle and
-- RateLimit.Tiered are TieredRateLimiter, which claims a lease of several requests from the table at
-- once and answers from memory while the lease lasts.
--
-- Share tokens (src/webbpulse/identity/share_tokens.py). Identity.ShareTokens is ShareTokenRecord,
-- InMemoryShareTokenStore, mint_share_token, verify_share_token and revoke_share_token, with the
-- product's capability as a type of its own; Identity.ShareTokens.Sharing is sequences of requests.
--
-- Provisioning filters (src/webbpulse/identity/scim/filters.py). Scim.Filters.Paths is AttrPath and
-- parse_attr_path; Scim.Filters.Parser is _Parser from the tokens of a filter on; Scim.Filters.Print
-- writes a tree as the tokens that should be read back.
--
-- State is passed explicitly: an operation takes the store and returns its answer with the new
-- store. What a call draws at random (a token, a family id) and its readings of the clock are
-- arguments. A moment and a span are in microseconds since the epoch, or in seconds where the device
-- grant counts them so, natural numbers without bound, as Python's integers are; a window, an expiry
-- and a quota are whole numbers of seconds or requests. Subtraction stops at zero, where the source
-- takes the maximum with zero or compares moments after the epoch. Loops are structural recursion:
-- the attempts of a claim are counted down from three as the source counts them, and the filter
-- parser recurs on the levels of nesting that its limit leaves. Only the two loops of the filter
-- parser run on fuel, one round more than the filter has tokens; a loop without fuel would answer an
-- error of its own, which the results exclude.
--
-- Parameters, which stand for code outside the repository: Runtime is Python's text case, ISO
-- timestamps, URL queries and SHA-256, and IsoLaws what the program relies on of timestamps;
-- RateLimit.Table is DynamoDB's conditional update, put and delete with their documented behaviour,
-- any of which may fail; Identity.Totp.Crypto is HMAC-SHA1, str.isdigit and the opening of a sealed
-- seed, and hmac.compare_digest takes, as documented, texts in ASCII alone;
-- Identity.DeviceGrant.Defs.Keys are the two HMACs of the device grant and Hooks what a product
-- plugs in; Scim.Filters.Parser.Json reads a JSON string, and LowerLaws is what str.lower does to
-- keywords. Hashes are not assumed to be free of collisions: where a theorem needs that a new token
-- has another hash than an old one, it says so. Another request between the read and the writes of
-- one request is modelled by functions for the part behind the read (rotate_live, redeem, burn).
--
-- Not modelled: HTTP routes, cryptography, the DynamoDB implementations of the identity stores,
-- single sign-on, the rest of SCIM (the tokens of a filter, evaluation, patches and resources), the
-- claims of share tokens, API keys, the OAuth server, the pages of the device login, webhooks, the
-- audit trail and the operations tools. Log lines and metrics are left out everywhere.
--
-- Base has the shared names, tests, lists, texts and association lists; Runtime the parameters of
-- time and text; Tests a concrete runtime and table, and runs on them.
pub mod Base
pub mod Runtime
pub mod Identity
pub mod RateLimit
pub mod Scim
pub mod Tests
