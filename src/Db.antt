-- ===== src/Db.antt =====
-- The database library of apue.3e/db/db.c: an index file of hash chains and a data file.
pub mod State
pub mod Returns
pub mod Records
pub mod Search
pub mod Layout
pub mod Chain
pub mod Steps
pub mod FreeList
pub mod RoundTrip
pub mod Sequential
pub mod Invariant
pub mod Api
mod Examples
mod Tests
