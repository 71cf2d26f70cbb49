-- ===== src/Sdk.antt =====
-- packages/sdk/src: the client library.
pub mod Problem
pub mod PublicFn
pub mod Client
mod Tests
