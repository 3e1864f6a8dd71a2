-- ===== src/Submit.antt =====
-- src/rtlfarm/control/routes/jobs.py: submission.
pub mod Tables
pub mod Write
pub mod Statements
pub mod Stored
pub mod Transaction
pub mod Retry
pub mod Made
pub mod Sizes
pub mod Checks
pub mod Accepted
pub mod Manifested
pub mod Handler
pub mod Atomic
pub mod Farm
mod Samples
