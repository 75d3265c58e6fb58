-- ===== src/Routes.antt =====
-- tutor/routes/sessions.py: the handlers of the session and turn endpoints. A handler runs after the
-- rate limit of its bucket, in a transaction of its own.
pub mod Http
pub mod View
pub mod Manage
pub mod Body
pub mod Turns
pub mod Stream
pub mod Delivery
pub mod Scope
pub mod Budget
pub mod OneActive
pub mod Withheld
