-- ===== src/Examples.antt =====
-- The theorems at concrete inputs, and runs of the definitions.
pub mod Strings
pub mod Sessions
pub mod Networks
pub mod Environments
pub mod TestServer
pub mod VendorRuns
pub mod LoadRuns
pub mod TestSession
pub mod SessionRuns
