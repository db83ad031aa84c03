-- ===== src/Vma/Emit.antt =====
-- Pass 2 of src/vma/vma_asm.c and the output of src/vma/vma_out.c, on a host that stores the
-- low byte first and whose writes succeed: the bytes written are returned.
pub mod Length
use mette.Base.{
  ℕ, zero, suc, ◌+◌, ◌-◌, ◌*◌, ◌^◌, Bool, true, false, ◌||◌, List, [], ◌∷◌, ◌++◌, map, length,
}
use mette.Base.{
  String, u8, u16, u32, add32, sub32, le16, le32, slt32, ltb, replicate, if◌then◌else◌,
}
use mette.Arch.{
  Opcode, opcode_byte, ldc_ub, ldc_sb, ldc_w, lea, locals, ldloc, stloc, br, br_t, br_f,
}
use mette.Arch.{call, ncall}
use mette.Vma.Syntax.{SymbolId, ExprId, Operand, no_operand, expr, ncall_id, Insn, machine, defb}
use mette.Vma.Syntax.{defh, defw, defs, resb, resh, resw, const_mark, subend, substart}
use mette.Vma.Eval.{Outcome, done, aborted, ◌>>=◌, Asm, error, value_of, evaluate_expr}
use mette.Vma.Pass1.{Placed, set_scope}

-- `vma_output_u8`, `vma_output_u16` and `vma_output_u32`.
abbrev pub output_u8 : ℕ → List ℕ
output_u8 v = u8 v ∷ []

abbrev pub output_u16 : ℕ → List ℕ
output_u16 v = le16 (u16 v)

abbrev pub output_u32 : ℕ → List ℕ
output_u32 v = le32 (u32 v)

-- The loop of a .RESx.
unfoldable pub fill : ℕ → List ℕ → List ℕ
fill zero unit = []
fill (suc n) unit = unit ++ fill n unit

-- The cases of the switch of `vma_emit_insn` on machine instructions.
pub data Form : Type 0 where
  bare byte branch number word relative : Form

unfoldable pub form : Opcode → Form
form ldc_ub = byte
form ldc_sb = byte
form locals = byte
form ldloc = byte
form stloc = byte
form br = branch
form br_t = branch
form br_f = branch
form ncall = number
form ldc_w = word
form lea = relative
form call = relative
form _ = bare

-- What an instruction writes, and the state after it.
abbrev pub Written : Type 0
Written = Outcome (List ℕ × Asm)

module _ (stale : SymbolId → String) (fuel : ℕ) where
  -- `vma_passx_evaluate_expr` with its result left out, then the value.
  unfoldable pub evaluated : ExprId → Asm → Outcome (ℕ × Asm)
  unfolding evaluate_expr
  evaluated e s = do (_, s1) ← evaluate_expr stale fuel e s; done (value_of s1 e, s1)

  -- An operand of one byte, which must be in range: it is not written if it is too large.
  unfoldable pub emit_byte : ExprId → Asm → Written
  unfolding evaluated error
  emit_byte e s = do
    (value, s1) ← evaluated e s
    if ltb 0xFF value then (error s1 >>= λ s2. done ([], s2)) else done (output_u8 value, s1)

  -- A branch target, relative to the end of the instruction: an error if it is too far, and
  -- written anyway.
  unfoldable pub emit_branch : ℕ → ExprId → Asm → Written
  unfolding evaluated error
  emit_branch start e s = do
    (value, s1) ← evaluated e s
    let diff = sub32 value (add32 start 2)
    let far = slt32 127 diff || slt32 diff (2 ^ 32 - 128)
    if far then (error s1 >>= λ s2. done (output_u8 diff, s2)) else done (output_u8 diff, s1)

  unfoldable pub emit_word : ExprId → Asm → Written
  unfolding evaluated
  emit_word e s = do (value, s1) ← evaluated e s; done (output_u32 value, s1)

  -- An address relative to the end of the instruction, as a word.
  unfoldable pub emit_relative : ℕ → ExprId → Asm → Written
  unfolding evaluated
  emit_relative start e s = do
    (value, s1) ← evaluated e s
    done (output_u32 (sub32 value (add32 start 5)), s1)

  -- The values of a .DEFx, one after the other.
  unfoldable pub emit_values : (ℕ → List ℕ) → List ExprId → Asm → Written
  unfolding evaluated
  emit_values output [] s = done ([], s)
  emit_values output (e ∷ es) s =
      evaluated e s >>= λ v. emit_values output es v.1 >>= λ r. done (output v.0 ++ r.0, r.1)

  -- The operand of a machine instruction. A null operand fails an assertion.
  unfoldable pub emit_operand : ℕ → Form → Operand → Asm → Written
  unfolding emit_byte emit_branch emit_word emit_relative
  emit_operand start bare _ s = done ([], s)
  emit_operand start byte (expr e) s = emit_byte e s
  emit_operand start branch (expr e) s = emit_branch start e s
  emit_operand start number (ncall_id id) s = done (output_u16 id, s)
  emit_operand start word (expr e) s = emit_word e s
  emit_operand start relative (expr e) s = emit_relative start e s
  emit_operand start _ _ s = aborted

  -- The switches of `vma_emit_insn`. A .RESx is filled with the value that pass 1 left.
  unfoldable pub emit_body : ℕ → Insn → Asm → Written
  unfolding form emit_operand emit_values fill
  emit_body start (machine op operand) s =
      emit_operand start (form op) operand s >>= λ r. done (opcode_byte op ∷ r.0, r.1)
  emit_body start (defs text) s = done (map u8 text, s)
  emit_body start (defb es) s = emit_values output_u8 es s
  emit_body start (defh es) s = emit_values output_u16 es s
  emit_body start (defw es) s = emit_values output_u32 es s
  emit_body start (resb e) s = done (fill (value_of s e) (output_u8 0xCC), s)
  emit_body start (resh e) s = done (fill (value_of s e) (output_u16 0xCCCC), s)
  emit_body start (resw e) s = done (fill (value_of s e) (output_u32 0xCCCCCCCC), s)
  emit_body start const_mark s = done ([], s)
  emit_body start subend s = done ([], set_scope subend s)
  emit_body start (substart k) s = done ([], set_scope (substart k) s)

  -- `vma_emit_insn`: the padding, which only aligned instructions have, and the rest.
  unfoldable pub emit_insn : Placed → Asm → Written
  unfolding emit_body
  emit_insn p s =
      emit_body p.start_addr p.insn s >>= λ r. done (replicate p.align_bytes 0xAA ++ r.0, r.1)
