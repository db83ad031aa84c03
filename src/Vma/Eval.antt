-- ===== src/Vma/Eval.antt =====
-- Expressions of the assembler, evaluated as in src/vma/vma_asm.c, with the error counter of
-- src/vma/vma_misc.c.
pub mod Errors
use mette.Base.{ℕ, zero, suc, String, ◌+◌, ◌*◌, ◌/◌, ltb, ◌==◌, if◌then◌else◌}
use mette.Base.{Option, none, some, List, get_elem?, set, bit_and, bit_or, bit_xor}
use mette.Base.{u32, add32, sub32, neg32, not32}
use mette.Base.{Bool, true, false}
use mette.Vma.Syntax.{BinOp, UnOp, SymbolId, SymRef, named, resolved, Symbol, Meaning, ExprId}
use mette.Vma.Syntax.{Expr, Node, literal, symref, binary, unary, label, constant, ncall}
use mette.Vma.Symtab.{Tables, local_table, lookup_chain}

-- The program goes on, or has left by `vma_abort`, or the fuel of the model does not suffice.
pub data Outcome {ℓ} (A : Type ℓ) : Type ℓ where
  done : A → Outcome A
  aborted out_of_fuel : Outcome A

infixl 5 ◌>>=◌
abbrev pub ◌>>=◌ {ℓ κ} : {A : Type ℓ} {B : Type κ} → Outcome A → (A → Outcome B) → Outcome B
done a >>= f = f a
aborted >>= f = aborted
out_of_fuel >>= f = out_of_fuel

-- The state of the passes: the tables, the expression nodes, `start_addr` of the instructions
-- allocated so far, and `vma_errors`.
pub record Asm : Type 0 where
  pub tables : Tables
  pub exprs : List Expr
  pub addrs : List ℕ
  pub errors : ℕ

-- `vma_error`: the 21st error ends the program.
unfoldable pub error : Asm → Outcome Asm
error s = if ltb 20 (s.errors + 1) then aborted else done (record s { errors = s.errors + 1 })

abbrev pub failed : Asm → Outcome (Bool × Asm)
failed s = error s >>= λ s'. done (false, s')

-- `expr->value`.
abbrev pub value_of : Asm → ExprId → ℕ
value_of s id = elim (get_elem? s.exprs id) [ none ↦ 0 | some e ↦ e.value ]

unfoldable pub set_value : ExprId → ℕ → Asm → Asm
set_value id v s = elim (get_elem? s.exprs id) [
  | none ↦ s
  | some e ↦ record s { exprs = set s.exprs id (record e { value = v }) }
]

unfoldable pub set_node : ExprId → Node → Asm → Asm
set_node id node s = elim (get_elem? s.exprs id) [
  | none ↦ s
  | some e ↦ record s { exprs = set s.exprs id (record e { node = node }) }
]

-- The arithmetic of the binary nodes. Division by zero is an error, with the value 1.
unfoldable pub apply_binary : BinOp → ℕ → ℕ → Asm → Outcome (ℕ × Asm)
unfolding error
apply_binary BinOp.or lhs rhs s = done (u32 (bit_or lhs rhs), s)
apply_binary BinOp.and lhs rhs s = done (u32 (bit_and lhs rhs), s)
apply_binary BinOp.xor lhs rhs s = done (u32 (bit_xor lhs rhs), s)
apply_binary BinOp.add lhs rhs s = done (add32 lhs rhs, s)
apply_binary BinOp.sub lhs rhs s = done (sub32 lhs rhs, s)
apply_binary BinOp.mul lhs rhs s = done (u32 (lhs * rhs), s)
apply_binary BinOp.div lhs rhs s =
    if rhs == 0 then (error s >>= λ s'. done (1, s')) else done (lhs / rhs, s)

unfoldable pub apply_unary : UnOp → ℕ → ℕ
apply_unary UnOp.neg rhs = neg32 rhs
apply_unary UnOp.not rhs = not32 rhs

unfoldable pub symbol_at : Tables → SymbolId → Option Symbol
symbol_at ts id = elim id.table [
  | none ↦ get_elem? ts.globals id.place
  | some k ↦ get_elem? (local_table ts k) id.place
]

-- `stale id` is what the bytes of a symbol's record spell: from its first use on a reference
-- holds the symbol's address, and a second use reads a name there.
module _ (stale : SymbolId → String) where
  -- The name that `vma_symref_resolve` looks up.
  abbrev pub ref_name : SymRef → String
  ref_name (named name) = name
  ref_name (resolved id) = stale id

  -- The functions below get the evaluation of another expression as `eval`.
  module _ (eval : ExprId → Asm → Outcome (Bool × Asm)) where
    -- The switch of `vma_passx_evaluate_symref`, for the reference of node `id`.
    unfoldable pub eval_meaning : ExprId → Meaning → Asm → Outcome (Bool × Asm)
    unfolding set_value error
    eval_meaning id (label i) s = elim (get_elem? s.addrs i) [
      | none ↦ failed s
      | some addr ↦ done (true, set_value id addr s)
    ]
    eval_meaning id (constant e) s = do
      (got, s1) ← eval e s
      done (got, if got then set_value id (value_of s1 e) s1 else s1)
    eval_meaning id (ncall _) s = failed s

    -- `vma_passx_evaluate_symref`.
    unfoldable pub eval_symref : ExprId → SymRef → Asm → Outcome (Bool × Asm)
    unfolding eval_meaning lookup_chain symbol_at set_node error
    eval_symref id ref s = elim (lookup_chain s.tables (ref_name ref)) [
      | none ↦ failed s
      | some found ↦ elim (symbol_at s.tables found) [
        | none ↦ aborted
        | some sym ↦ eval_meaning id sym.meaning (set_node id (symref (resolved found)) s)
      ]
    ]

    -- The switch of `vma_passx_evaluate_expr`.
    unfoldable pub eval_node : ExprId → Node → Asm → Outcome (Bool × Asm)
    unfolding eval_symref apply_binary apply_unary set_value
    eval_node id literal s = done (true, s)
    eval_node id (symref ref) s = eval_symref id ref s
    eval_node id (binary op a b) s = do
      (got_a, s1) ← eval a s
      elim got_a [
        | false ↦ done (false, s1)
        | true ↦ eval b s1 >>= λ r. elim r.0 [
          | false ↦ done (false, r.1)
          | true ↦ apply_binary op (value_of r.1 a) (value_of r.1 b) r.1 >>= λ v.
              done (true, set_value id v.0 v.1)
        ]
      ]
    eval_node id (unary op a) s = do
      (got, s1) ← eval a s
      done (got, if got then set_value id (apply_unary op (value_of s1 a)) s1 else s1)

  -- `vma_passx_evaluate_expr`. The fuel bounds the depth of the recursion, which C leaves to the
  -- stack. A null pointer fails the assertion.
  unfoldable pub evaluate_expr : ℕ → ExprId → Asm → Outcome (Bool × Asm)
  unfolding eval_node
  evaluate_expr zero id s = out_of_fuel
  evaluate_expr (suc fuel) id s = elim (get_elem? s.exprs id) [
    | none ↦ aborted
    | some e ↦ eval_node (evaluate_expr fuel) id e.node s
  ]
