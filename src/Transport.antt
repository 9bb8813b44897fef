-- ===== src/Transport.antt =====
-- The network actions of src/amvp_transport.c.
pub mod Network
pub mod Codes
pub mod Refreshing
pub mod Receiving
pub mod Expired
pub mod Preserving
