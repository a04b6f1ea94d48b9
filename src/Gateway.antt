-- ===== src/Gateway.antt =====
-- core/gateway: what the console is sent, and how a request passes through the filters to a plugin.
pub mod Menu
pub mod Routes
pub mod Handler
pub mod Backend
pub mod Serve
