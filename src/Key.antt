-- ===== src/Key.antt =====
-- Stable object keys: `ObjectKey` and `ObjectKind` of crates/database-memory-core/src/lib.rs,
-- with their `Display` and `FromStr` implementations.
mod Kind
mod Codec
pub mod Split
pub mod Escape
pub mod Roundtrip
pub mod Parsed
mod Tests
unfoldable pub use Kind.*
unfoldable pub use Codec.*
