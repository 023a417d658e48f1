-- ===== src/Printd.antt =====
-- The printer daemon, apue.3e/printer/printd.c.
pub mod Ipp
pub mod Jobs
pub mod Lengths
pub mod Attributes
pub mod Fits
pub mod Encoded
pub mod Pending
pub mod Queue
pub mod Spool
pub mod Tag
pub mod Restart
pub mod Removal
pub mod Marked
pub mod Answer
pub mod Numbers
pub mod Kept
mod Examples
