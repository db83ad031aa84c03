-- ===== src/Link/Tests.antt =====
-- Relative addresses written and read back at one place.
use mette.Base.{ℕ, ◌+◌, ◌≡◌, refl, arith, true, none, [], ◌∷◌, String, le32, sub32, add32}
use mette.Base.{ok, ◌>>=◌}
use mette.Arch.{Opcode}
use mette.Vm.Memory.{i386, Memory, update}
use mette.Vm.Context.{Context, World}
use mette.Vm.Step.{branch, push_none, push_1, save_frame, exec}
use mette.Vma.Syntax.{SymbolId, literal}
use mette.Vma.Eval.{done, Asm}
use mette.Vma.Emit.{evaluated, emit_branch, emit_relative}
use mette.Link.{first_byte, branch-emit_branch, emit_relative-call}

abbrev no_name : SymbolId → String
no_name id = ""

-- One literal, 20.
abbrev twenty : Asm
twenty = record {
  tables = record { globals = []; locals = []; scope = none };
  exprs = record { value = 20; node = literal } ∷ [];
  addrs = [];
  errors = 0;
}

twenty-evaluated : evaluated no_name 1 0 twenty ≡ done (20, twenty)
unfolding evaluated
twenty-evaluated = refl

-- 15 as a word, behind an opcode at 4096; as a byte it is 15 too.
abbrev word_at : ℕ → Memory
word_at b0 = update (update (update (update (λ addr. none) 4097 b0) 4098 0) 4099 0) 4100 0

abbrev machine_with : ℕ → Context
machine_with b0 = record {
  dstack = record { bottom = 1; limit = 0; top = 1; mem = 0 ∷ [] };
  cstack = record { bottom = 1; limit = 0; top = 1; mem = none ∷ [] };
  pc = 4096;
  locals = none;
  loaded = record { base = 4096; entry = 4096; ncalls_table = none };
  memory = word_at b0;
}

abbrev zeros : World
zeros = record { granted = true; junk = λ i. 0 }

branch-emit_branch_example :
    (emit_branch no_name 1 0 0 twenty
      ≡ done (first_byte (emit_branch no_name 1 0 0 twenty) ∷ [], twenty))
    × (branch (machine_with 18) true (add32 4096 (0 + 1))
        ≡ push_none (machine_with 18) (add32 4096 20))
branch-emit_branch_example =
    branch-emit_branch no_name 1 0 20 4096 0 twenty twenty (machine_with 18) twenty-evaluated
      (omega arith) (omega arith) (omega arith) (omega arith) (unfold emit_branch in refl)

emit_relative-call_example :
    (emit_relative no_name 1 0 0 twenty ≡ done (le32 (sub32 20 (add32 0 5)), twenty))
    × (exec i386 (λ addr ctx. ok ctx) zeros Opcode.lea (machine_with 15) 0 0 (add32 4096 (0 + 1))
        ≡ push_1 (machine_with 15) (add32 4096 (0 + 5)) (add32 4096 20))
    × (exec i386 (λ addr ctx. ok ctx) zeros Opcode.call (machine_with 15) 0 0 (add32 4096 (0 + 1))
        ≡ (save_frame true (machine_with 15) (add32 4096 (0 + 5)) >>= λ ctx'.
            push_none ctx' (add32 4096 20)))
emit_relative-call_example =
    emit_relative-call no_name 1 (λ addr ctx. ok ctx) zeros 0 20 4096 0 twenty twenty
      (machine_with 15) 0 0 twenty-evaluated (omega arith)
      (record { at0 = refl; at1 = refl; at2 = refl; at3 = refl })
