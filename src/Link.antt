-- ===== src/Link.antt =====
-- The operands that src/vma/vma_asm.c writes, as src/vm/vm_core.c reads them: addresses relative
-- to the end of the instruction.

mod Tests
use mette.Base.{
  ℕ, ◌+◌, ◌-◌, ◌%◌, ◌/◌, ◌^◌, ◌≤◌, ◌<◌, ◌≡◌, refl, ap, ◌∙◌, sym, arith, Bool, true, false, ◌||◌,
  List, [], ◌∷◌, some, ltb,
}
use mette.Base.{
  String, u8, u32, add32, sub32, sext8, slt32, le32, if◌then◌else◌, Result, ok, ◌>>=◌, get_or,
}
use mette.Arch.{Opcode}
use mette.Vm.Memory.{Target, i386, load8, fetch32_ua}
use mette.Vm.Memory.Laws.{HoldsWord, fetch32_ua-le32}
use mette.Vm.Context.{Context, World}
use mette.Vm.Step.{Done, push_none, push_1, branch, op_call, save_frame, exec}
use mette.Vma.Syntax.{SymbolId, ExprId}
use mette.Vma.Eval.{Outcome, done, ◌>>=◌ as ◌>>>◌, Asm}
use mette.Vma.Emit.{output_u8, output_u32, evaluated, emit_branch, emit_relative}

in_range :
    (v start : ℕ)
    → v ≤ start + 129
    → start + 2 ≤ v + 128
    → start + 2 < 2 ^ 32
    → v < 2 ^ 32
    → (slt32 127 (sub32 v (add32 start 2)) || slt32 (sub32 v (add32 start 2)) (2 ^ 32 - 128))
      ≡ false
in_range v start near far small word = ground arith

jump_lands :
    (v start base : ℕ)
    → v ≤ start + 129
    → start + 2 ≤ v + 128
    → start + 2 < 2 ^ 32
    → v < 2 ^ 32
    → add32 (add32 (add32 base (start + 1)) 1) (sext8 (u8 (sub32 v (add32 start 2)))) ≡ add32 base v
jump_lands v start base near far small word = ground arith

-- The bytes of a word from an address on, lowest first.
abbrev pub HoldsBytes : Context → ℕ → ℕ → Type 0
HoldsBytes ctx addr d =
    HoldsWord ctx.memory addr (d % 256) (d / 256 % 256) (d / 65536 % 256) (d / 16777216 % 256)

-- The first byte of what is written.
abbrev first_byte : Outcome (List ℕ × Asm) → ℕ
first_byte (done r) = get_or r.0 0 0
first_byte _ = 0

module _ (stale : SymbolId → String) (fuel : ℕ) where
  emit_branch-near :
      (start v : ℕ) (e : ExprId) (s s' : Asm)
      → evaluated stale fuel e s ≡ done (v, s')
      → v ≤ start + 129
      → start + 2 ≤ v + 128
      → start + 2 < 2 ^ 32
      → v < 2 ^ 32
      → emit_branch stale fuel start e s ≡ done (output_u8 (sub32 v (add32 start 2)), s')
  unfolding emit_branch
  emit_branch-near start v e s s' value near far small word =
      rw (value, emit_branch) (rw (in_range v start near far small word) refl)

  -- A branch to an address from 128 bytes before to 127 bytes behind its end is written without
  -- an error as one byte, and where that byte stands behind the opcode in a module loaded at
  -- `base`, the branch that is taken goes to that address of the module, on both targets.
  pub branch-emit_branch :
      (start v base : ℕ) (e : ExprId) (s s' : Asm) (ctx : Context)
      → evaluated stale fuel e s ≡ done (v, s')
      → v ≤ start + 129
      → start + 2 ≤ v + 128
      → start + 2 < 2 ^ 32
      → v < 2 ^ 32
      → ctx.memory (add32 base (start + 1)) ≡ some (first_byte (emit_branch stale fuel start e s))
      → (emit_branch stale fuel start e s
          ≡ done (first_byte (emit_branch stale fuel start e s) ∷ [], s'))
        × (branch ctx true (add32 base (start + 1)) ≡ push_none ctx (add32 base v))
  unfolding branch load8
  branch-emit_branch start v base e s s' ctx value near far small word held =
      let written = emit_branch-near start v e s s' value near far small word in
      let byte : first_byte (emit_branch stale fuel start e s) ≡ u8 (sub32 v (add32 start 2)) =
        ap first_byte written in
      (rw byte written, rw (held, byte, jump_lands v start base near far small word) refl)

  -- The operand of a CALL or LEA is written as the word that leads from the end of the
  -- instruction to the address, lowest byte first; and where those bytes stand behind the opcode
  -- in a module loaded at `base`, on i386 LEA pushes that address of the module, and CALL saves
  -- the address behind it and goes there.
  pub emit_relative-call :
      (thunks : ℕ → Context → Result Context) (w : World) (start v base : ℕ) (e : ExprId)
      (s s' : Asm) (ctx : Context) (a1 a2 : ℕ)
      → evaluated stale fuel e s ≡ done (v, s')
      → v < 2 ^ 32
      → HoldsBytes ctx (add32 base (start + 1)) (sub32 v (add32 start 5))
      → (emit_relative stale fuel start e s ≡ done (le32 (sub32 v (add32 start 5)), s'))
        × (exec i386 thunks w Opcode.lea ctx a1 a2 (add32 base (start + 1))
            ≡ push_1 ctx (add32 base (start + 5)) (add32 base v))
        × (exec i386 thunks w Opcode.call ctx a1 a2 (add32 base (start + 1)) ≡ (
            save_frame w.granted ctx (add32 base (start + 5)) >>= λ ctx'.
            push_none ctx' (add32 base v)))
  unfolding emit_relative exec op_call
  emit_relative-call thunks w start v base e s s' ctx a1 a2 value word held =
      let d = sub32 v (add32 start 5) in
      let short : u32 d ≡ d = omega arith in
      let fetched : fetch32_ua i386 ctx.memory (add32 base (start + 1)) ≡ ok d =
        fetch32_ua-le32 i386 ctx.memory (add32 base (start + 1)) d (omega arith) held in
      let behind : add32 (add32 base (start + 1)) 4 ≡ add32 base (start + 5) = omega arith in
      let pushed : add32 d (add32 base (start + 5)) ≡ add32 base v = omega arith in
      let lands : add32 (add32 base (start + 5)) d ≡ add32 base v = omega arith in
      (
        rw (value, emit_relative) (rw short refl),
        rw (fetched, behind) (rw pushed refl),
        rw (fetched, behind) (rw lands refl),
      )
