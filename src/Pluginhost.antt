-- ===== src/Pluginhost.antt =====
-- core/pluginhost: the circuit breaker, the life of a plugin process and crash recovery.
pub mod Breaker
pub mod Instance
pub mod Supervisor
pub mod Registry
pub mod Package
pub mod Manager
pub mod Scheduler
