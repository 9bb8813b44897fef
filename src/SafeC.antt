-- ===== src/SafeC.antt =====
-- The bounds-checked C library of safe_c_stub/src: comparisons, scans and copies.
pub mod Errno
pub mod Compare
pub mod Spans
pub mod Comparisons
pub mod Copy
pub mod Copying
pub mod Bounds
pub mod MemoryBounds
