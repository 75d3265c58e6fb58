-- ===== src/Access.antt =====
-- Who may do what, and how much of it: tutor/auth.py (Auth), tutor/ratelimit.py (Limiter) and
-- tutor/quotas.py (Quotas).
pub mod Auth
pub mod Limiter
pub mod Quotas
