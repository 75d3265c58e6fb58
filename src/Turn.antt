-- ===== src/Turn.antt =====
-- tutor/orchestration/turn.py: one turn of a session, from the learner's answer to the committed
-- state. `Steps` has the parts, `Apply` the server-side turn and its BYOK twin. The other modules
-- hold the proofs.
pub mod Steps
pub mod Apply
pub mod Atomic
pub mod Outcome
pub mod Saved
