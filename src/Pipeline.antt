-- ===== src/Pipeline.antt =====
-- core/pipeline: the filters that run in each phase of a request.
pub mod Headers
pub mod Context
pub mod Chain
pub mod Runner
