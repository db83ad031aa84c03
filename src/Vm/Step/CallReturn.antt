-- ===== src/Vm/Step/CallReturn.antt =====
-- CALL, ICALL and RET of src/vm/vm_core.c.
use mette.Base.{ℕ, ◌<◌, ◌≡◌, refl, true, Option, none, some}
use mette.Base.{ok}
use mette.Vm.Memory.{Memory}
use mette.Vm.Stack.{Stack}
use mette.Vm.Stack
use mette.Vm.Stack.Refine.{IsValid, contents}
use mette.Vm.Stack.RoundTrip.{push-pop}
use mette.Vm.Context.{Context, Frame, Locals}
use mette.Vm.Step.{save_frame, restore_frame}

-- A call that has room on a valid control stack, and whose frame is allocated, saves it and starts
-- with no locals. However
-- the callee leaves the data stack, the memory, its locals and `pc`, when it returns with the
-- control stack as it found it, the caller goes on behind the call, with its own locals and
-- the control stack it had, and with what the callee left on the data stack and in memory.
pub save_frame-restore_frame :
    (ctx : Context) (return_pc : ℕ) (dstack : Stack ℕ) (memory : Memory) (locals : Option Locals)
    (pc : ℕ)
    → IsValid ctx.cstack
    → 0 < ctx.cstack.top
    → (callee caller : Context) × (save_frame true ctx return_pc ≡ ok callee)
      × (callee.locals ≡ none)
      × (restore_frame
            (record callee { dstack = dstack; memory = memory; locals = locals; pc = pc })
          ≡ ok (caller, return_pc))
      × (caller.locals ≡ ctx.locals)
      × (contents caller.cstack ≡ contents ctx.cstack)
      × (caller.dstack ≡ dstack)
      × (caller.memory ≡ memory)
unfolding save_frame restore_frame
save_frame-restore_frame ctx return_pc dstack memory locals pc v room =
    let frame : Frame = record {
      return_pc = return_pc;
      locals = ctx.locals;
      dstack_top = Stack.stack_top ctx.dstack;
    } in
    let (s', s'', e, d, c, _, _) = push-pop ctx.cstack (some frame) v room in
    (
      record ctx { cstack = s'; locals = none },
      record ctx { cstack = s''; locals = ctx.locals; dstack = dstack; memory = memory; pc = pc },
      rw e,
      refl,
      rw d,
      refl,
      c,
      refl,
      refl,
    )
