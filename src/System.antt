-- ===== src/System.antt =====
-- The service as a whole: what the requests of tutor/routes/sessions.py, the stream's second
-- transaction and the purge of tutor/persistence/purge.py do to the session table, one at a time in
-- any order, and what holds of every table that they reach.
pub mod Changes
pub mod Updated
pub mod Consistent
pub mod History
pub mod Scope
pub mod Statements
pub mod Turns
pub mod Handlers
pub mod Replies
pub mod Requests
