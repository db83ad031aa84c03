-- ===== src/Vma/Tests.antt =====
-- The assembler of src/vma on a small program.
use mette.Base.{ℕ, ◌≡◌, refl, arith, true, Bool, none, some, List, [], ◌∷◌, ◌++◌, String}
use mette.Base.{ok, length, add32, sub32}
use mette.Arch.{Opcode, opcode_byte}
use mette.Vm.Memory.{i386, Memory}
use mette.Vm.Loader.{load_fd, place}
use mette.Vm.Loader.Image.{loaded_table}
use mette.Vm.Tests.{one_file, one_file-Regular}
use mette.Vma.Syntax.{
  SymbolId, Symbol, Expr, literal, symref, named, binary, BinOp, label, ncall, machine, expr,
  ncall_id, resw, defh, Insn,
}
use mette.Vma.Symtab.{lookup, define}
use mette.Vma.Symtab.Laws.{lookup-define, lookup-define_ne, IsNumbered, define-IsNumbered}
use mette.Vma.Eval.{Asm, done, Outcome, evaluate_expr}
use mette.Vma.Pass1.{place_insns, operand_bytes, Placed, Layout, pass1}
use mette.Vma.Out.{generate, emit_insns, output_header, output_hashes, start_addr_of}
use mette.Vma.Out.Loadable.{ncall_hashes}
use mette.Vm.Thunks.{make_hash}
use mette.Vma.Out.Hash.{hash_name-make_hash}
use mette.Vma.Out.{hash_name}
use mette.Vma.Out.Extent.{emit_insns-extent}
use mette.Vma.Out.Assembled.{assembled-load_fd}

-- No bytes of a symbol spell a name.
abbrev no_name : SymbolId → String
no_name id = ""

abbrev start_symbol : Symbol
start_symbol = record { name = "start"; meaning = label 0; line = 1 }

abbrev exit_symbol : Symbol
exit_symbol = record { name = "exit"; meaning = ncall 0; line = 2 }

-- 5, 2, 5 + 2, and `start / (5 + 2)`.
abbrev heap : List Expr
heap =
    record { value = 5; node = literal }
    ∷ record { value = 2; node = literal }
    ∷ record { value = 0; node = binary BinOp.add 0 1 }
    ∷ record { value = 0; node = symref (named "start") }
    ∷ record { value = 0; node = binary BinOp.div 2 3 }
    ∷ []

abbrev fresh : Asm
fresh = record {
  tables = record { globals = start_symbol ∷ []; locals = []; scope = none };
  exprs = heap;
  addrs = [];
  errors = 0;
}

-- start: LDC.UB 5; NCALL exit; .RESW 2
abbrev program : List Insn
program = machine Opcode.ldc_ub (expr 0) ∷ machine Opcode.ncall (ncall_id 0) ∷ resw 1 ∷ []

abbrev placed : List Placed
placed =
    record { insn = machine Opcode.ldc_ub (expr 0); start_addr = 0; align_bytes = 0 }
    ∷ record { insn = machine Opcode.ncall (ncall_id 0); start_addr = 2; align_bytes = 0 }
    ∷ record { insn = resw 1; start_addr = 8; align_bytes = 3 }
    ∷ []

abbrev layout : Layout
layout = record { next_va = 16; bss_va = 5 }

abbrev allocated : Asm
allocated = record fresh { addrs = 0 ∷ 2 ∷ 8 ∷ [] }

pass1-program : pass1 no_name 9 0 program fresh ≡ done (placed, layout, allocated)
unfolding pass1
pass1-program = refl

abbrev body : List ℕ
body = 21 ∷ 5 ∷ 46 ∷ 0 ∷ 0 ∷ []

abbrev file : List ℕ
file = output_header 16 5 0 1 ++ (body ++ output_hashes (exit_symbol ∷ []))

start_found : start_addr_of allocated "start" ≡ some 0
unfolding start_addr_of
start_found = refl

program_emitted : emit_insns no_name 9 5 placed allocated ≡ done (body, allocated)
unfolding emit_insns opcode_byte
program_emitted = refl

program_written :
    generate no_name 9 "start" 0 layout placed (exit_symbol ∷ []) allocated ≡ done (file, allocated)
unfolding generate opcode_byte
program_written = refl

abbrev empty_memory : Memory
empty_memory addr = none

abbrev code : List Insn
code = machine Opcode.ldc_ub (expr 0) ∷ machine Opcode.ncall (ncall_id 0) ∷ []

abbrev code_placed : List Placed
code_placed =
    record { insn = machine Opcode.ldc_ub (expr 0); start_addr = 0; align_bytes = 0 }
    ∷ record { insn = machine Opcode.ncall (ncall_id 0); start_addr = 2; align_bytes = 0 }
    ∷ []

abbrev space_placed : List Placed
space_placed = record { insn = resw 1; start_addr = 8; align_bytes = 3 } ∷ []

abbrev code_layout : Layout
code_layout = record { next_va = 5; bss_va = 5 }

abbrev code_allocated : Asm
code_allocated = record fresh { addrs = 0 ∷ 2 ∷ [] }

code_laid :
    place_insns no_name 9 code (record { next_va = 0; bss_va = 0 }) fresh
    ≡ done (code_placed, code_layout, code_allocated)
unfolding place_insns
code_laid = refl

emit_insns-extent_example : length body ≡ sub32 5 0
emit_insns-extent_example =
    emit_insns-extent no_name 9 code code_placed space_placed 0 code_layout fresh code_allocated
      allocated allocated body (refl, (refl, tt)) (unfold operand_bytes in omega arith) code_laid
      (omega arith) program_emitted refl

assembled-load_fd_example :
    load_fd
      (one_file file)
      i386
      (record { module_granted = true; image = some 0x1000; table_granted = true })
      (λ h. 4096)
      0
      empty_memory
    ≡ ok (
      record {
        base = 0x1000;
        entry = add32 0x1000 (sub32 0 0);
        ncalls_table = loaded_table (λ h. 4096) (ncall_hashes (exit_symbol ∷ []));
      },
      place empty_memory 0x1000 body,
    )
assembled-load_fd_example =
    assembled-load_fd no_name 9 code code_placed space_placed 0 0 code_layout layout "start"
      (exit_symbol ∷ []) fresh code_allocated allocated allocated body file (refl, (refl, tt))
      (unfold operand_bytes in omega arith) code_laid refl (omega arith) (omega arith) start_found
      (omega arith) program_emitted refl program_written (one_file file) (one_file-Regular file)
      i386 (λ h. 4096) 0 empty_memory 0x1000 (omega arith, tt)

-- .DEFH 5, 2 behind one byte of padding.
abbrev halves : Placed
halves = record { insn = defh (0 ∷ 1 ∷ []); start_addr = 2; align_bytes = 1 }

errors_after : Outcome (Bool × Asm) → ℕ
errors_after (done r) = r.1.errors
errors_after _ = 0

quotient_error : errors_after (evaluate_expr no_name 9 4 allocated) ≡ 1
unfolding errors_after evaluate_expr
quotient_error = refl

lookup-define_example :
    lookup (define (start_symbol ∷ []) "exit" ncall 7).0 "exit"
    ≡ some (define (start_symbol ∷ []) "exit" ncall 7).1
lookup-define_example = lookup-define (start_symbol ∷ []) "exit" ncall 7

lookup-define_ne_example :
    lookup (define (start_symbol ∷ []) "exit" ncall 7).0 "start"
    ≡ lookup (start_symbol ∷ []) "start"
lookup-define_ne_example = lookup-define_ne (start_symbol ∷ []) "exit" ncall 7 "start" refl

define-IsNumbered_example : IsNumbered 0 (define (exit_symbol ∷ []) "open" ncall 3).0
define-IsNumbered_example = define-IsNumbered (exit_symbol ∷ []) "open" 3 (refl, tt)

hash_name-make_hash_example : hash_name "io_open" ≡ make_hash "io_open"
hash_name-make_hash_example = hash_name-make_hash "io_open" (
  omega arith,
  (omega arith, (omega arith, (omega arith, (omega arith, (omega arith, (omega arith, tt)))))),
)
