-- ===== src/Domain.antt =====
-- tutor/domain: the ladders of steps, the verdict of the gate, and the state machine over them.
pub mod Steps
pub mod Verdict
pub mod Fsm
