-- ===== src/Coach.antt =====
-- What the coach is given: the problem's context (tutor/grounding/context.py), its prompts
-- (tutor/orchestration/coach.py, byok.py), and the verdict that a BYOK client sends (byok.py).
pub mod Context
pub mod Prompts
pub mod Client
