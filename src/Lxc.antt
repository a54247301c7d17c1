-- ===== src/Lxc.antt =====
-- internal/lxc: what the daemon decides about its containers.
pub mod Restart
pub mod Health
pub mod Vmid
pub mod Hosts
pub mod Forwards
pub mod State
