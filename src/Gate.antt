-- ===== src/Gate.antt =====
-- tutor/orchestration/gate.py: the gate call. `Answer` composes what the gate sees, `Coerce` repairs
-- its output, `Validate` is the interface to the validator, `Evaluate` is the whole pipeline.
-- The other modules hold the proofs.
pub mod Answer
pub mod Coerce
pub mod Validate
pub mod Evaluate
pub mod Snap
pub mod Repair
pub mod FailSafe
