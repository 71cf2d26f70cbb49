-- ===== src/Web.antt =====
-- web/src: the console, without its pages. Errors, the session, route guards and the API client.
pub mod Problem
pub mod Session
pub mod Guards
pub mod Client
pub mod LocalCache
mod Tests
