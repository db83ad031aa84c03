-- ===== src/Vma.antt =====
-- The assembler, src/vma.
pub mod Syntax
pub mod Symtab
pub mod Eval
pub mod Define
pub mod Pass1
pub mod Emit
pub mod Out
mod Tests
