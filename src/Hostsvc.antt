-- ===== src/Hostsvc.antt =====
-- core/hostsvc: the capabilities that Core offers to plugins.
pub mod Keys
pub mod Locks
pub mod Cache
pub mod Egress
pub mod Dial
pub mod Files
