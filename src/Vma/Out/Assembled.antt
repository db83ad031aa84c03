-- ===== src/Vma/Out/Assembled.antt =====
-- From pass 1 of src/vma/vma_asm.c through src/vma/vma_out.c to src/vm/vm_loader.c.
use mathlib.Core.Path.{subst}
use mette.Base.{ℕ, ◌+◌, ◌^◌, ◌≤◌, ◌<◌, ◌≡◌, ◌≢◌, sym, ap, ◌∙◌, All, List, ◌++◌, some, length, true}
use mette.Base.{String, sub32, add32, ok}
use mette.Vm.Memory.{Target, Memory}
use mette.Vm.Loader.{Files, place, load_fd}
use mette.Vm.Loader.Image.{Regular, loaded_table}
use mette.Vma.Syntax.{SymbolId, Insn}
use mette.Vma.Symtab.{Symtab}
use mette.Vma.Eval.{done, Asm}
use mette.Vma.Pass1.{Placed, Layout, place_insns}
use mette.Vma.Out.{start_addr_of, emit_insns, generate}
use mette.Vma.Out.Extent.{IsCode, bound, Behind, emit_insns-extent}
use mette.Vma.Out.Loadable.{ncall_hashes, generate-load_fd}

module _ (stale : SymbolId → String) (fuel : ℕ) where
  -- A program of code that reserves no space and has no empty .DEFH or .DEFW, with anything placed behind it that does not start
  -- within the code: if pass 1 places the code, pass 2 writes it without an error, and
  -- `vma_generate` ends, then `vm_load_fd` on either target loads the file from a regular file, if
  -- memory is granted and the hash of each native call is known. The entry is the offset of the
  -- start symbol behind the base, the bytes of the code stand in memory from the base on, and the
  -- table holds the native procedures in the order of the native calls. The code must stay within
  -- the address space, the file part of the layout must end where the code does and be no larger
  -- than the memory part, the start symbol must have an address, and there must be fewer than 2^16
  -- native calls.
  pub assembled-load_fd :
      (code : List Insn) (placed rest : List Placed) (start_va ep : ℕ) (l last : Layout)
      (start_symbol : String) (ncalls : Symtab) (s s1 t t' : Asm) (body file : List ℕ)
      → All IsCode code
      → start_va + bound code < 2 ^ 32
      → place_insns stale fuel code (record { next_va = start_va; bss_va = start_va }) s
        ≡ done (placed, l, s1)
      → last.bss_va ≡ l.bss_va
      → Behind stale fuel last.bss_va rest
      → sub32 last.bss_va start_va ≤ sub32 last.next_va start_va
      → start_addr_of t start_symbol ≡ some ep
      → length ncalls < 2 ^ 16
      → emit_insns stale fuel last.bss_va (placed ++ rest) t ≡ done (body, t')
      → t'.errors ≡ t.errors
      → generate stale fuel start_symbol start_va last (placed ++ rest) ncalls t ≡ done (file, t')
      → (fs : Files) (reg : Regular fs file) (target : Target) (lookup : ℕ → ℕ) (fd : fs.Handle)
        (memory : Memory) (base : ℕ)
      → All (λ h. lookup h ≢ 0) (ncall_hashes ncalls)
      → load_fd fs target
          (record { module_granted = true; image = some base; table_granted = true })
          lookup
          fd
          memory
        ≡ ok (
          record {
            base = base;
            entry = add32 base (sub32 ep start_va);
            ncalls_table = loaded_table lookup (ncall_hashes ncalls);
          },
          place memory base body,
        )
  assembled-load_fd code placed rest start_va ep l last start_symbol ncalls s s1 t t' body file all
        small laid same behind fits found few emitted quiet written fs reg target lookup fd memory
        base known =
      let at_end = subst (λ n. Behind stale fuel n rest) same behind in
      let code_emitted =
        subst (λ n. emit_insns stale fuel n (placed ++ rest) t ≡ done (body, t')) same emitted in
      let extent =
        emit_insns-extent stale fuel code placed rest start_va l s s1 t t' body all small laid
          at_end code_emitted quiet in
      let fills : length body ≡ sub32 last.bss_va start_va =
        extent ∙ sym (ap (λ n. sub32 n start_va) same) in
      generate-load_fd stale fuel start_symbol start_va ep last (placed ++ rest) ncalls t t' body
        file found emitted fills fits few written fs reg target lookup fd memory base known
