-- ===== src/App.antt =====
-- tutor/app.py: what stands before the routes.
pub mod Front
pub mod Offered
