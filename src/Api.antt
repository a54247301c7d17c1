-- ===== src/Api.antt =====
-- internal/api: the HTTP layer's own logic.
pub mod Filters
pub mod ListFilters
pub mod Env
pub mod Escape
pub mod Signals
pub mod Stop
pub mod Build
pub mod Exec
pub mod Frames
pub mod Logs
mod Tests
