-- ===== src/Vm/Step/Tests.antt =====
-- Runs of the machine of src/vm/vm_core.c on small states.
use mette.Base.{ℕ, ◌≡◌, refl, arith, true, Option, none, List, [], ◌∷◌, get_elem?}
use mette.Base.{Result, ok, Returns, panic, stack_underflow}
use mette.Arch.{Opcode, offtab, opcode_byte, info}
use mette.Vm.Memory.{i386, Memory, load8, fetch32_ua}
use mette.Vm.Stack
use mette.Vm.Stack.{Stack}
use mette.Vm.Stack.Refine
use mette.Vm.Stack.Refine.{contents, depth}
use mette.Vm.Context.{Context, LoadedModule, World, Frame}
use mette.Vm.Step.{vm_step, run, save_frame, restore_frame, dispatch, exec, push_each, op_call}
use mette.Vm.Step.Valid.{IsValid}
use mette.Vm.Step.Balance.{Balanced, vm_step-balance, vm_step_underflow}
use mette.Vm.Step.CallReturn.{save_frame-restore_frame}

-- LDC.UB 7, DUP, ADD, CALL 2.
abbrev code : List ℕ
code = 21 ∷ 7 ∷ 100 ∷ 128 ∷ 42 ∷ 2 ∷ 0 ∷ 0 ∷ 0 ∷ []

abbrev code_memory : Memory
code_memory addr = get_elem? code addr

-- No thunk does anything.
abbrev idle : ℕ → Context → Result Context
idle addr ctx = ok ctx

abbrev zeros : World
zeros = record { granted = true; junk = λ i. 0 }

abbrev loaded : LoadedModule
loaded = record { base = 0; entry = 0; ncalls_table = none }

abbrev operands : Stack ℕ
operands = record { bottom = 4; limit = 0; top = 2; mem = 0 ∷ 0 ∷ 5 ∷ 6 ∷ [] }

abbrev frames : Stack (Option Frame)
frames = record { bottom = 2; limit = 0; top = 2; mem = none ∷ none ∷ [] }

abbrev at : ℕ → Context
at pc = record {
  dstack = operands;
  cstack = frames;
  pc = pc;
  locals = none;
  loaded = loaded;
  memory = code_memory;
}

operands-IsValid : Refine.IsValid operands
operands-IsValid = record { region = refl; base = refl; in_region = omega arith }

frames-IsValid : Refine.IsValid frames
frames-IsValid = record { region = refl; base = refl; in_region = omega arith }

vm_step-balance_example : Returns (Balanced Opcode.add (at 3)) (vm_step i386 idle zeros (at 3))
vm_step-balance_example =
    vm_step-balance i386 idle zeros Opcode.add (at 3) (λ e. cc) operands-IsValid
      (unfold opcode_byte in refl)

abbrev short : Context
short = record (at 3) { dstack = record operands { top = 3 } }

vm_step_underflow_example : vm_step i386 idle zeros short ≡ panic stack_underflow
vm_step_underflow_example =
    vm_step_underflow i386 idle zeros Opcode.add short
      (record { region = refl; base = refl; in_region = omega arith }) (unfold opcode_byte in refl)
      (unfold info in omega arith)

save_frame-restore_frame_example :
    (callee caller : Context) × (save_frame true (at 4) 9 ≡ ok callee)
    × (callee.locals ≡ none)
    × (restore_frame
          (record callee { dstack = operands; memory = code_memory; locals = none; pc = 11 })
        ≡ ok (caller, 9))
    × (caller.locals ≡ none)
    × (contents caller.cstack ≡ contents frames)
    × (caller.dstack ≡ operands)
    × (caller.memory ≡ code_memory)
save_frame-restore_frame_example =
    save_frame-restore_frame (at 4) 9 operands code_memory none 11 frames-IsValid (omega arith)

-- The first three instructions, and the call behind them, by evaluation.
after_call : Result Context → List ℕ
after_call (ok ctx) = ctx.pc ∷ contents ctx.dstack
after_call _ = []

run_code :
    after_call (run i386 idle (zeros ∷ zeros ∷ zeros ∷ zeros ∷ []) (at 0)) ≡ 11 ∷ 14 ∷ 5 ∷ 6 ∷ []
unfolding after_call run vm_step load8 Stack.pop3 dispatch offtab exec push_each Stack.push op_call
    fetch32_ua save_frame
run_code = refl
