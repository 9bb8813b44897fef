-- ===== src/Flow.antt =====
-- The run of a test session: src/amvp.c over the requests of src/amvp_transport.c.
pub mod State
pub mod Requests
pub mod Login
pub mod Tokens
pub mod Frame
pub mod Growing
pub mod Answers
pub mod Asking
pub mod Posting
pub mod Register
pub mod Registered
pub mod Registering
pub mod Results
pub mod Polling
pub mod Passing
pub mod Scanning
pub mod Rounds
pub mod Approval
pub mod Ending
pub mod Run
pub mod Stages
pub mod Completed
