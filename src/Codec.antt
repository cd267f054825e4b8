-- ===== src/Codec.antt =====
-- src/lib.rs: the compact byte format of a record, its writer and its two readers.
pub mod Write
pub mod Reader
pub mod Lazy
pub mod Size
pub mod Holds
pub mod Copy
pub mod Reread
