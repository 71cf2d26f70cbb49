-- ===== src/Database.antt =====
-- web/src/features/database: the catalogue of the tables of a project and the list of those that
-- are open to the data API.
pub mod Catalog
mod Tests
