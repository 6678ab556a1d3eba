-- ===== src/Tests.antt =====
-- Sample values, and the theorems at concrete inputs.
pub mod Samples
pub mod Examples
pub mod Gate
pub mod Files
pub mod Supervision
