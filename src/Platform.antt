-- ===== src/Platform.antt =====
-- packages/python/sentinel_common: the events, the outbox and its relay worker, the settings, the
-- middleware and the authorization of requests.
pub mod Json
pub mod Events
pub mod Outbox
pub mod Reply
pub mod Settings
pub mod Http
pub mod Jwt
pub mod Python
pub mod Auth
pub mod Actor
pub mod Samples
