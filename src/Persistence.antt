-- ===== src/Persistence.antt =====
-- tutor/persistence: the rows of the schema, the queries of repo.py and purge.py over them, and the
-- transaction that a request runs in.
pub mod Models
pub mod Sessions
pub mod Messages
pub mod Gates
pub mod Transaction
pub mod Versions
pub mod Upserts
