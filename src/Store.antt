-- ===== src/Store.antt =====
-- internal/store/store.go: the metadata store.
pub mod Records
pub mod State
pub mod Lifecycle
pub mod Ip
pub mod Containers
pub mod Images
pub mod Networks
pub mod Samples
mod Tests
