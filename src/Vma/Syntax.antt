-- ===== src/Vma/Syntax.antt =====
-- The data of the assembler: src/vma/vma.h, with the constructors of src/vma/vma_asm.c.
use mette.Base.{ℕ, String, List, [], ◌∷◌, ◌++◌, length, Option, u32}
use mette.Arch.{Opcode}

-- `vma_expr_type_t` from EXPR_OR to EXPR_DIV, and EXPR_NEG and EXPR_NOT.
pub data BinOp : Type 0 where
  or and xor add sub mul div : BinOp

pub data UnOp : Type 0 where
  neg not : UnOp

-- Where a symbol stands: the place in the table of a subroutine (its number), or in the
-- global table.
pub record SymbolId : Type 0 where
  pub table : Option ℕ
  pub place : ℕ

-- `vma_symref_t`: the union holds a name, and from the first use on the symbol found.
pub data SymRef : Type 0 where
  named : String → SymRef
  resolved : SymbolId → SymRef

-- A pointer to an expression: the number of the node in the order of allocation.
abbrev pub ExprId : Type 0
ExprId = ℕ

-- `vma_expr_type_t` with the member of the union that it selects.
pub data Node : Type 0 where
  literal : Node
  symref : SymRef → Node
  binary : BinOp → ExprId → ExprId → Node
  unary : UnOp → ExprId → Node

-- `vma_expr_t`.
pub record Expr : Type 0 where
  pub value : ℕ
  pub node : Node

-- `vma_expr_build_literal`, `vma_expr_build_symref` and `vma_expr_build_parent`: a node behind
-- those allocated before. `junk` is what an uninitialised `value` holds.
unfoldable pub expr_build_literal : List Expr → ℕ → List Expr × ExprId
expr_build_literal heap value =
    (heap ++ (record { value = u32 value; node = literal } ∷ []), length heap)

unfoldable pub expr_build_symref : ℕ → List Expr → String → List Expr × ExprId
expr_build_symref junk heap name =
    (heap ++ (record { value = junk; node = symref (named name) } ∷ []), length heap)

unfoldable pub expr_build_parent : ℕ → List Expr → Node → List Expr × ExprId
expr_build_parent junk heap node =
    (heap ++ (record { value = junk; node = node } ∷ []), length heap)

-- `vma_expr_list_append`, at the tail; the count is the length.
unfoldable pub expr_list_append : List ExprId → ExprId → List ExprId
expr_list_append list node = list ++ (node ∷ [])

-- `vma_symbol_type_t` with the member of the union that it selects: the number of the
-- instruction that a label names, the value of a constant, the number of a native call.
pub data Meaning : Type 0 where
  label : ℕ → Meaning
  constant : ExprId → Meaning
  ncall : ℕ → Meaning

-- `vma_symbol_t`, and a table as the list from `head` to `tail`.
pub record Symbol : Type 0 where
  pub name : String
  pub meaning : Meaning
  pub line : ℕ

-- What stands in the union of a machine instruction.
pub data Operand : Type 0 where
  no_operand : Operand
  expr : ExprId → Operand
  ncall_id : ℕ → Operand

-- `vma_insn_t`: a machine instruction, data, reserved space, or a mark. A subroutine's start
-- names its own table by its number.
pub data Insn : Type 0 where
  machine : Opcode → Operand → Insn
  defb defh defw : List ExprId → Insn
  defs : List ℕ → Insn
  resb resh resw : ExprId → Insn
  const_mark subend : Insn
  substart : ℕ → Insn
