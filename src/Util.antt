-- ===== src/Util.antt =====
-- The helpers of src/amvp_util.c.
pub mod Hex
pub mod HexRoundTrip
pub mod StringList
pub mod Lookup
pub mod Appending
pub mod ErrorString
