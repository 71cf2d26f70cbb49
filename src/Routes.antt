-- ===== src/Routes.antt =====
-- web/src/app/router.tsx: the table of routes, matching a location with it, and signing in.
pub mod Table
pub mod Matching
pub mod Outcomes
pub mod Settling
pub mod Laws
pub mod Links
pub mod Sign
pub mod First
mod Tests
