-- ===== src/Serialization.antt =====
-- serialization: properties, the binary format, and the values that are written and read.
pub mod Property
pub mod Binary
pub mod Values
pub mod Archive
pub mod JsonArchive
