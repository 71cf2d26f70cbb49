-- ===== src/Dsl/Filter/RoundTrip.antt =====
-- Rows that are written and read back unchanged.
mod Values
mod Operators
mod Row
mod Rows
pub use Row.*
pub use Rows.*
