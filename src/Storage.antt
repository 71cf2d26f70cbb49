-- ===== src/Storage.antt =====
-- The storage browser of the console.
pub mod ObjectKey
pub mod Upload
pub mod Objects
mod Tests
