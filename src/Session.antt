-- ===== src/Session.antt =====
-- The test session of src/amvp.c.
pub mod Context
pub mod Setters
pub mod Strings
pub mod Calls
pub mod Keeping
pub mod SetterValidity
pub mod Validity
pub mod Retry
pub mod Waiting
pub mod VectorSets
pub mod Progress
pub mod Waits
pub mod Submissions
