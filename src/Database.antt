-- ===== src/Database.antt =====
-- pkg/database: the records of database dumps, their locks, their files and their downloads.
pub mod Tables
pub mod Repository
pub mod Service
pub mod Saving
pub mod Locks
pub mod Handler
