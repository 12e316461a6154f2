-- ===== src/Db.antt =====
-- app/db: the tables, and the SQLAlchemy session through which they are read and written.
pub mod Models
pub mod Session
pub mod Factory
