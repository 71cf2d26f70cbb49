-- ===== src/Dsl.antt =====
-- web/src/features/triggers/PayloadDSLBuilder.tsx: the editor of a trigger's payload DSL.
pub mod Filter
pub mod Builder
mod Tests
