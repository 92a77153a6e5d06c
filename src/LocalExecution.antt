-- ===== src/LocalExecution.antt =====
-- examples/local_execution/execute.py.
pub mod Trace
pub mod Tree
pub mod Contexts
pub mod Reads
pub mod Machine
pub mod Counters
pub mod Blocks
pub mod Accounting
pub mod Outcomes
pub mod Agreement
pub mod Snapshot
pub mod Examples
