-- ===== src/Pathmatch.antt =====
-- pathmatch/pathmatch.go: the glob patterns of filter paths, compiled once and matched on every
-- request.
pub mod Defs
pub mod Spec
mod Segments
pub mod Laws
pub mod Compiled
pub mod Literal
mod Tests
