-- ===== src/State.antt =====
-- src/llm_harness/state.py: the durable queue of work items and the append-only ledgers beside it.
pub mod Records
pub mod Store
pub mod Graph
pub mod Schedule
pub mod Queue
pub mod Results
pub mod Review
pub mod Encode
pub mod Ledger
pub mod Lifecycle
pub mod Operations
pub mod Values
pub mod Decode
pub mod RoundTrip
pub mod Immutable
pub mod Claims
pub mod Paths
pub mod Repeated
pub mod Decisions
