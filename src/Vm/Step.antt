-- ===== src/Vm/Step.antt =====
-- `vm_step` of src/vm/vm_core.c, one instruction. Debug output is left out.
pub mod Valid
pub mod Kept
pub mod Boot
pub mod CallReturn
pub mod Leaves
pub mod Balance
pub mod Moves
pub mod Invariant
mod Tests
use mette.Base.{
  ℕ, zero, suc, ◌+◌, ◌-◌, ◌*◌, ◌/◌, ◌%◌, ◌^◌, Bool, true, false, ◌==◌, ltb, leb, if◌then◌else◌,
}
use mette.Base.{Option, some, none, List, [], ◌∷◌, get_elem?, get_or, set, length, not}
use mette.Base.{Result, ok, panic, fault, ◌>>=◌, access, bad_access, bit_and, bit_or, bit_xor}
use mette.Base.{u8, u16, u32, add32, sub32, not32, sext8, sext16, slt32}
use mette.Base.{unknown_opcode, no_locals, local_out_of_bounds, no_ncalls}
use mette.Arch.{Opcode, offtab}
use mette.Vm.Memory.{Target, i386, mips, Memory, load8, load16, load32, store8, store16, store32}
use mette.Vm.Memory.{fetch16_ua, fetch32_ua}
use mette.Vm.Stack
use mette.Vm.Stack.{Stack}
use mette.Vm.Alu
use mette.Vm.Alu.{flag}
use mette.Vm.Context.{Context, Frame, Locals, LoadedModule, World}

-- Where an instruction leaves off: the context, the local `pc`, and what is to be pushed, in
-- that order: `r1` before `r0` at `push_2`.
pub record Done : Type 0 where
  pub ctx : Context
  pub pc : ℕ
  pub pushed : List ℕ

abbrev pub push_none : Context → ℕ → Result Done
push_none ctx pc = ok (record { ctx = ctx; pc = pc; pushed = [] })

abbrev pub push_1 : Context → ℕ → ℕ → Result Done
push_1 ctx pc r0 = ok (record { ctx = ctx; pc = pc; pushed = r0 ∷ [] })

abbrev pub push_2 : Context → ℕ → ℕ → ℕ → Result Done
push_2 ctx pc r1 r0 = ok (record { ctx = ctx; pc = pc; pushed = r1 ∷ r0 ∷ [] })

-- `vm_save_frame`. Writing to a frame that could not be allocated is an access fault.
pub save_frame : Bool → Context → ℕ → Result Context
save_frame granted ctx pc =
    if granted
    then (do
      cstack ← Stack.push ctx.cstack (
          some (record {
            return_pc = pc;
            locals = ctx.locals;
            dstack_top = Stack.stack_top ctx.dstack;
          }))
      ok (record ctx { cstack = cstack; locals = none }))
    else fault bad_access

-- `vm_restore_frame`, and the same statements in `op_RET`: the context and the return address.
pub restore_frame : Context → Result (Context × ℕ)
restore_frame ctx = do
  (cell, cstack) ← Stack.pop ctx.cstack
  frame ← access cell
  ok (record ctx { cstack = cstack; locals = frame.locals }, frame.return_pc)

-- `op_LOCALS`: `count` words of which none is initialised. A failed allocation is not checked.
junk_from : (ℕ → ℕ) → ℕ → ℕ → List ℕ
junk_from junk i zero = []
junk_from junk i (suc n) = junk i ∷ junk_from junk (suc i) n

pub op_locals : World → Context → ℕ → Result Done
unfolding junk_from
op_locals w ctx pc = do
  count ← load8 ctx.memory pc
  let fresh = record ctx {
    locals = some (record { count = count; cells = junk_from w.junk 0 count });
  }
  if w.granted then push_none fresh (add32 pc 1) else fault bad_access

-- The checks that `op_LDLOC` and `op_STLOC` share.
abbrev pub checked_locals : Context → ℕ → Result Locals
checked_locals ctx index = elim ctx.locals [
  | none ↦ panic no_locals
  | some l ↦ if leb l.count index then panic local_out_of_bounds else ok l
]

pub op_ldloc : Context → ℕ → Result Done
op_ldloc ctx pc = do
  index ← load8 ctx.memory pc
  l ← checked_locals ctx index
  r0 ← access (get_elem? l.cells index)
  push_1 ctx (add32 pc 1) r0

pub op_stloc : Context → ℕ → ℕ → Result Done
op_stloc ctx arg1 pc = do
  index ← load8 ctx.memory pc
  l ← checked_locals ctx index
  push_none (record ctx { locals = some (record l { cells = set l.cells index arg1 }) })
      (add32 pc 1)

-- `op_BR`, and `op_BR_T` and `op_BR_F` with their condition.
unfoldable pub branch : Context → Bool → ℕ → Result Done
branch ctx taken pc = do
  offset ← load8 ctx.memory pc
  push_none ctx (if taken then add32 (add32 pc 1) (sext8 offset) else add32 pc 1)

-- The stores: `value` is ARG2, `addr` is ARG1.
abbrev pub stored : Context → ℕ → Result Memory → Result Done
stored ctx pc r = do m ← r; push_none (record ctx { memory = m }) pc

pub op_ret : Context → Result Done
op_ret ctx = do (ctx', pc) ← restore_frame ctx; push_none ctx' pc

pub op_icall : World → Context → ℕ → ℕ → Result Done
op_icall w ctx arg1 pc = do ctx' ← save_frame w.granted ctx pc; push_none ctx' arg1

-- The pushes at the labels `push_2` and `push_1`.
pub push_each : Stack ℕ → List ℕ → Result (Stack ℕ)
push_each s [] = ok s
push_each s (r ∷ rs) = do s' ← Stack.push s r; push_each s' rs

-- A target, and the code behind each address of a native call table.
module _ (t : Target) (thunks : ℕ → Context → Result Context) where
  unfoldable pub op_call : World → Context → ℕ → Result Done
  op_call w ctx pc = do
    offset ← fetch32_ua t ctx.memory pc
    ctx' ← save_frame w.granted ctx (add32 pc 4)
    push_none ctx' (add32 (add32 pc 4) offset)

  -- The index is not checked against the size of the table.
  pub op_ncall : Context → ℕ → Result Done
  op_ncall ctx pc = do
    index ← fetch16_ua t ctx.memory pc
    elim ctx.loaded.ncalls_table [
      | none ↦ panic no_ncalls
      | some table ↦ access (get_elem? table index) >>= λ thunk.
          thunks thunk ctx >>= λ ctx'. push_none ctx' (add32 pc 2)
    ]

  -- The labels of the dispatch, with ARG1, ARG2 and `pc` behind the opcode byte.
  unfoldable pub exec : World → Opcode → Context → ℕ → ℕ → ℕ → Result Done
  exec w Opcode.add ctx a1 a2 pc = push_1 ctx pc (add32 a2 a1)
  exec w Opcode.sub ctx a1 a2 pc = push_1 ctx pc (sub32 a2 a1)
  exec w Opcode.mulu ctx a1 a2 pc =
      let (r0, r1) = Alu.mulu t (w.junk 2) a1 a2 in push_2 ctx pc r1 r0
  exec w Opcode.muls ctx a1 a2 pc =
      let (r0, r1) = Alu.muls t (w.junk 2) a1 a2 in push_2 ctx pc r1 r0
  exec w Opcode.divu ctx a1 a2 pc = do (r0, r1) ← Alu.divu a2 a1; push_2 ctx pc r1 r0
  exec w Opcode.divs ctx a1 a2 pc = do (r0, r1) ← Alu.divs a2 a1; push_2 ctx pc r1 r0
  exec w Opcode.and ctx a1 a2 pc = push_1 ctx pc (u32 (bit_and a1 a2))
  exec w Opcode.or ctx a1 a2 pc = push_1 ctx pc (u32 (bit_or a1 a2))
  exec w Opcode.xor ctx a1 a2 pc = push_1 ctx pc (u32 (bit_xor a1 a2))
  exec w Opcode.not ctx a1 a2 pc = push_1 ctx pc (not32 a1)
  exec w Opcode.lsl ctx a1 a2 pc = do r0 ← Alu.lsl a2 a1; push_1 ctx pc r0
  exec w Opcode.lsr ctx a1 a2 pc = do r0 ← Alu.lsr a2 a1; push_1 ctx pc r0
  exec w Opcode.asr ctx a1 a2 pc = do r0 ← Alu.asr a2 a1; push_1 ctx pc r0
  exec w Opcode.cmp_lt ctx a1 a2 pc = push_1 ctx pc (flag (slt32 a1 a2))
  exec w Opcode.cmp_gt ctx a1 a2 pc = push_1 ctx pc (flag (slt32 a2 a1))
  exec w Opcode.cmp_b ctx a1 a2 pc = push_1 ctx pc (flag (ltb a1 a2))
  exec w Opcode.cmp_a ctx a1 a2 pc = push_1 ctx pc (flag (ltb a2 a1))
  exec w Opcode.cmp_eq ctx a1 a2 pc = push_1 ctx pc (flag (a2 == a1))
  exec w Opcode.ldc_0 ctx a1 a2 pc = push_1 ctx pc 0
  exec w Opcode.ldc_1 ctx a1 a2 pc = push_1 ctx pc 1
  exec w Opcode.ldc_2 ctx a1 a2 pc = push_1 ctx pc 2
  exec w Opcode.ldc_ub ctx a1 a2 pc = do r0 ← load8 ctx.memory pc; push_1 ctx (add32 pc 1) r0
  exec w Opcode.ldc_sb ctx a1 a2 pc = do
    r0 ← load8 ctx.memory pc
    push_1 ctx (add32 pc 1) (sext8 r0)
  exec w Opcode.ldc_w ctx a1 a2 pc = do r0 ← fetch32_ua t ctx.memory pc; push_1 ctx (add32 pc 4) r0
  exec w Opcode.lea ctx a1 a2 pc = do
    r0 ← fetch32_ua t ctx.memory pc
    push_1 ctx (add32 pc 4) (add32 r0 (add32 pc 4))
  exec w Opcode.ldm_ub ctx a1 a2 pc = do r0 ← load8 ctx.memory a1; push_1 ctx pc r0
  exec w Opcode.ldm_sb ctx a1 a2 pc = do r0 ← load8 ctx.memory a1; push_1 ctx pc (sext8 r0)
  exec w Opcode.ldm_uh ctx a1 a2 pc = do r0 ← load16 t ctx.memory a1; push_1 ctx pc r0
  exec w Opcode.ldm_sh ctx a1 a2 pc = do r0 ← load16 t ctx.memory a1; push_1 ctx pc (sext16 r0)
  exec w Opcode.ldm_w ctx a1 a2 pc = do r0 ← load32 t ctx.memory a1; push_1 ctx pc r0
  exec w Opcode.stm_b ctx a1 a2 pc = stored ctx pc (store8 ctx.memory a1 a2)
  exec w Opcode.stm_h ctx a1 a2 pc = stored ctx pc (store16 t ctx.memory a1 a2)
  exec w Opcode.stm_w ctx a1 a2 pc = stored ctx pc (store32 t ctx.memory a1 a2)
  exec w Opcode.locals ctx a1 a2 pc = op_locals w ctx pc
  exec w Opcode.ldloc ctx a1 a2 pc = op_ldloc ctx pc
  exec w Opcode.stloc ctx a1 a2 pc = op_stloc ctx a1 pc
  exec w Opcode.dup ctx a1 a2 pc = push_2 ctx pc a1 a1
  exec w Opcode.swap ctx a1 a2 pc = push_2 ctx pc a1 a2
  exec w Opcode.pop ctx a1 a2 pc = push_none ctx pc
  exec w Opcode.br ctx a1 a2 pc = branch ctx true pc
  exec w Opcode.br_t ctx a1 a2 pc = branch ctx (not (a1 == 0)) pc
  exec w Opcode.br_f ctx a1 a2 pc = branch ctx (a1 == 0) pc
  exec w Opcode.call ctx a1 a2 pc = op_call w ctx pc
  exec w Opcode.ret ctx a1 a2 pc = op_ret ctx
  exec w Opcode.icall ctx a1 a2 pc = op_icall w ctx a1 pc
  exec w Opcode.ijmp ctx a1 a2 pc = push_none ctx a1
  exec w Opcode.ncall ctx a1 a2 pc = op_ncall ctx pc

  -- `offtab` has 64 entries; those past the table are 0 and lead to `op_invalid`.
  pub dispatch : World → Option Opcode → Context → ℕ → ℕ → ℕ → Result Done
  dispatch w none ctx a1 a2 pc = panic unknown_opcode
  dispatch w (some op) ctx a1 a2 pc = exec w op ctx a1 a2 pc

  -- `buf` is filled from the stack as far as the opcode byte says; the rest is not initialised.
  pub vm_step : World → Context → Result Context
  vm_step w ctx = do
    byte ← load8 ctx.memory ctx.pc
    (buf, dstack) ← Stack.pop3 ctx.dstack (byte / 2 ^ 6)
    d ←
        dispatch w (get_elem? offtab (bit_and byte 0x3f)) (record ctx { dstack = dstack })
          (get_or buf 0 (w.junk 0)) (get_or buf 1 (w.junk 1)) (add32 ctx.pc 1)
    final ← push_each d.ctx.dstack d.pushed
    ok (record (d.ctx) { dstack = final; pc = d.pc })

  -- The loop of `main`, for as many steps as there are entries of the schedule.
  pub run : List World → Context → Result Context
  run [] ctx = ok ctx
  run (w ∷ ws) ctx = do ctx' ← vm_step w ctx; run ws ctx'
