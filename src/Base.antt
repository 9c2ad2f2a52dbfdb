-- ===== src/Base.antt =====
-- What the modules of this library share: the names of the standard libraries, passed on, and
-- helpers on lists, on machine words and on little-endian bytes.
pub mod Handles
pub mod Tests
pub mod Lists
pub mod Words
pub mod Bytes
