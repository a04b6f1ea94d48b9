-- ===== src/Manifest.antt =====
-- manifest: the declarations of a plugin.
pub mod Filters
pub mod Cron
pub mod Menus
pub mod Plugin
mod Tests
