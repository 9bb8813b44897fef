-- ===== src/Env.antt =====
-- The operating environments of src/amvp_operating_env.c.
pub mod Types
pub mod Tables
pub mod Copies
pub mod Lookup
pub mod View
pub mod Refinement
pub mod Valid
pub mod Ops
pub mod Keeping
pub mod Reach
pub mod Pages
pub mod Query
pub mod Verify
pub mod Matching
pub mod Paging
pub mod OeMatching
pub mod Ending
pub mod Verifying
pub mod Statuses
pub mod Querying
pub mod Contacts
pub mod Vendors
pub mod VendorQuery
pub mod Emails
pub mod Modules
pub mod Metadata
pub mod Persons
pub mod VendorFirst
pub mod Loading
pub mod Loaded
pub mod Sharing
pub mod Choice
