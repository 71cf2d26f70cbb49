-- ===== src/Marketplace.antt =====
-- web/src/features/marketplace: the list of packages, a package with its versions, publishing and
-- installing.
pub mod Semver
pub mod Package
pub mod Listing
mod Tests
