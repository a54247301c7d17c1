-- ===== src/Api/Build.antt =====
-- internal/api/build.go: what the daemon makes of a Dockerfile.
pub mod Syntax
pub mod Variables
pub mod Stages
pub mod Evaluate
pub mod Run
pub mod Quoting
pub mod Reading
pub mod Partition
mod Tests
