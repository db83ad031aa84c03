-- ===== src/Native.antt =====
-- The native procedures of src/vm_thunks that bytecode calls by NCALL.
pub mod Act
pub mod Strbuf
pub mod Io
pub mod Rtl
pub mod Select
pub mod Sockets
pub mod Table
pub mod Uses
pub mod Parts
pub mod Served
pub mod Order
pub mod Balance
pub mod Tests
