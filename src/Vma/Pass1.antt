-- ===== src/Vma/Pass1.antt =====
-- Pass 1 of src/vma/vma_asm.c: the size of each instruction, its alignment and its address.
pub mod Align
use mette.Base.{ℕ, ◌+◌, ◌-◌, ◌*◌, ◌^◌, Bool, true, false, List, [], ◌∷◌, ◌++◌, length, some, none}
use mette.Base.{String, u32, add32, sub32, bit_and, ltb, if◌then◌else◌}
use mette.Arch.{
  Opcode, ldc_ub, ldc_sb, ldc_w, lea, locals, ldloc, stloc, br, br_t, br_f, call, ncall,
}
use mette.Vma.Syntax.{SymbolId, ExprId, Insn, machine, defb, defh, defw, defs, resb, resh, resw}
use mette.Vma.Syntax.{const_mark, subend, substart}
use mette.Vma.Eval.{Outcome, done, aborted, ◌>>=◌, Asm, error, value_of, evaluate_expr}

-- The bytes behind the opcode of a machine instruction.
unfoldable pub operand_bytes : Opcode → ℕ
operand_bytes ldc_ub = 1
operand_bytes ldc_sb = 1
operand_bytes locals = 1
operand_bytes ldloc = 1
operand_bytes stloc = 1
operand_bytes br = 1
operand_bytes br_t = 1
operand_bytes br_f = 1
operand_bytes ncall = 2
operand_bytes ldc_w = 4
operand_bytes lea = 4
operand_bytes call = 4
operand_bytes _ = 0

-- `ctx->lookup_stack = ...`.
abbrev pub set_scope : Insn → Asm → Asm
set_scope (substart k) s = record s { tables = record (s.tables) { scope = some k } }
set_scope subend s = record s { tables = record (s.tables) { scope = none } }
set_scope _ s = s

-- `VMA_ALIGN`, for a power of two.
unfoldable pub align : ℕ → ℕ → ℕ
align x a = bit_and (add32 x (a - 1)) (2 ^ 32 - a)

-- The alignment that `vma_pass1` gives an instruction.
abbrev pub alignment : Insn → ℕ
alignment (defh _) = 2
alignment (resh _) = 2
alignment (defw _) = 4
alignment (resw _) = 4
alignment _ = 1

-- Whether the instruction stands before INSN_ALLOCATE: whether it is part of the file.
abbrev pub has_bytes : Insn → Bool
has_bytes (resb _) = false
has_bytes (resh _) = false
has_bytes (resw _) = false
has_bytes const_mark = false
has_bytes subend = false
has_bytes (substart _) = false
has_bytes _ = true

-- An instruction with what pass 1 writes into it.
pub record Placed : Type 0 where
  pub insn : Insn
  pub start_addr : ℕ
  pub align_bytes : ℕ

-- `next_va` and `bss_va` of the loop of `vma_pass1`.
pub record Layout : Type 0 where
  pub next_va : ℕ
  pub bss_va : ℕ

module _ (stale : SymbolId → String) (fuel : ℕ) where
  -- The three cases of .RESx, for elements of `size` bytes.
  unfoldable pub reserve : ℕ → ExprId → Asm → Outcome (ℕ × Asm)
  unfolding evaluate_expr error
  reserve size e s = do
    (got, s1) ← evaluate_expr stale fuel e s
    if got then done (u32 (size * value_of s1 e), s1) else (error s1 >>= λ s2. done (0, s2))

  -- `vma_pass1_insn_estimate_size`.
  unfoldable pub estimate_size : Insn → Asm → Outcome (ℕ × Asm)
  unfolding reserve operand_bytes
  estimate_size (machine op _) s = done (1 + operand_bytes op, s)
  estimate_size (defs text) s = done (length text, s)
  estimate_size (defb es) s = done (1 * length es, s)
  estimate_size (defh es) s = done (2 * length es, s)
  estimate_size (defw es) s = done (4 * length es, s)
  estimate_size (resb e) s = reserve 1 e s
  estimate_size (resh e) s = reserve 2 e s
  estimate_size (resw e) s = reserve 4 e s
  estimate_size const_mark s = done (0, s)
  estimate_size subend s = done (0, s)
  estimate_size (substart _) s = done (0, s)

  -- The body of the loop of `vma_pass1`. The switch aligns for four kinds of instruction; for
  -- the others `align_bytes` stays 0.
  unfoldable pub place_insn : Insn → Layout → Asm → Outcome (Placed × Layout × Asm)
  unfolding estimate_size align
  place_insn insn l s =
      let start = if ltb 1 (alignment insn) then align l.next_va (alignment insn) else l.next_va in
      let s1 = set_scope insn s in
      estimate_size insn (record s1 { addrs = s1.addrs ++ (start ∷ []) }) >>= λ r.
      let next = add32 start r.0 in
      done (
        record { insn = insn; start_addr = start; align_bytes = sub32 start l.next_va },
        record { next_va = next; bss_va = if has_bytes insn then next else l.bss_va },
        r.1,
      )

  -- The loop.
  unfoldable pub place_insns : List Insn → Layout → Asm → Outcome (List Placed × Layout × Asm)
  unfolding place_insn
  place_insns [] l s = done ([], l, s)
  place_insns (insn ∷ insns) l s =
      place_insn insn l s >>= λ p. place_insns insns p.1 p.2 >>= λ r. done (p.0 ∷ r.0, r.1, r.2)

  -- `vma_pass1`, with `vma_abort_on_errors` at its end.
  unfoldable pub pass1 : ℕ → List Insn → Asm → Outcome (List Placed × Layout × Asm)
  unfolding place_insns
  pass1 start_va insns s =
      place_insns insns (record { next_va = start_va; bss_va = start_va }) s >>= λ r.
      if ltb 0 r.2.errors then aborted else done r
