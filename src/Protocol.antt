-- ===== src/Protocol.antt =====
-- What the library reads in a server's answer: include/amvp/amvp_error.h and src/amvp_error.c.
pub mod Json
pub mod Errors
pub mod Handling
pub mod Parse
pub mod Parsing
pub mod Checking
