-- ===== src/Alg.antt =====
-- The algorithm table of src/amvp.c and the searches in it.
pub mod Cipher
pub mod Sub
pub mod SubValue
pub mod Entry
pub mod Table
pub mod Naming
pub mod Lookup
pub mod Entries
pub mod RoundTrip
pub mod Dispatch
pub mod Dispatching
