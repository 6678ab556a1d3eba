-- ===== src/Verifier.antt =====
-- src/llm_harness/verifier.py: the gate that each worker's patch passes before it is applied.
pub mod Quoted
pub mod Headers
pub mod Scan
pub mod Gate
pub mod Safety
pub mod FailClosed
