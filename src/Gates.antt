-- ===== src/Gates.antt =====
-- src/core/gates.py: the deterministic gates over a proposed decision, and the chain that runs them.
pub mod Reads
pub mod Recurrence
pub mod Discovery
pub mod Pressure
pub mod Closing
pub mod Escalation
pub mod LoopBreaker
pub mod Chain
