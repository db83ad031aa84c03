-- ===== src/Rtl.antt =====
-- The runtime library, src/rtl, and the string functions of src/sysdep.
pub mod Xstring
pub mod Strbuf
pub mod Convert
pub mod Print
pub mod Format
pub mod Arena
pub mod Memory
pub mod Realloc
mod Tests
