-- ===== src/Storage.antt =====
-- crates/icn-covm/src/storage: what the storage backends are made of, and the one in memory.
pub mod Types
pub mod Identity
pub mod Auth
pub mod Resource
pub mod Versioning
pub mod InMemory
pub mod Namespaces
