-- ===== src/Projects.antt =====
-- web/src/features/projects: the tabs of a project.
pub mod Settings
pub mod ApiKeys
mod Tests
