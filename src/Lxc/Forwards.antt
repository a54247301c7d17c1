-- ===== src/Lxc/Forwards.antt =====
-- internal/lxc/network.go and the reconciliation of published ports in internal/lxc/manager.go.
pub mod Chains
pub mod Reconcile
pub mod Claims
pub mod Marking
pub mod Healing
pub mod Pruning
pub mod Ticks
pub mod History
pub mod Listing
pub mod Current
mod Tests
