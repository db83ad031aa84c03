-- ===== src/Vma/Out/Loadable.antt =====
-- What src/vma/vma_out.c writes, as an image for src/vm/vm_loader.c.
use mathlib.Core.Path.{subst}
use mette.Base.{
  ℕ, ◌%◌, ◌^◌, ◌≤◌, ◌<◌, ◌≡◌, ◌≢◌, refl, sym, ap, ◌∙◌, arith, All, List, [], ◌∷◌, ◌++◌, some,
  length,
}
use mette.Base.{String, u32, sub32, add32, le32, ok, true}
use mette.Vm.Memory.{Target, Memory}
use mette.Vm.Loader.{Files, place, load_fd}
use mette.Vm.Loader.Image.{Regular, image, header, hash_bytes, loaded_table, load_fd-image}
use mette.Vma.Syntax.{SymbolId}
use mette.Vma.Symtab.{Symtab}
use mette.Vma.Eval.{Outcome, done, Asm}
use mette.Vma.Pass1.{Placed, Layout}
use mette.Vma.Out.{hash_name, output_hashes, output_header, start_addr_of, emit_insns, generate}

abbrev bytes_of : Outcome (List ℕ × Asm) → List ℕ
bytes_of (done r) = r.0
bytes_of _ = []

-- The hashes of the native calls as numbers.
abbrev pub ncall_hashes : Symtab → List ℕ
ncall_hashes [] = []
ncall_hashes (s ∷ ss) = u32 (hash_name s.name) ∷ ncall_hashes ss

abbrev padding : List ℕ
padding = 255 ∷ 255 ∷ 255 ∷ 255 ∷ 0 ∷ 0 ∷ 255 ∷ 255 ∷ 0 ∷ 0 ∷ 255 ∷ 255 ∷ 0 ∷ 0 ∷ []

output_hashes-bytes : (ss : Symtab) → output_hashes ss ≡ hash_bytes (ncall_hashes ss)
unfolding output_hashes
output_hashes-bytes [] = refl
output_hashes-bytes (s ∷ ss) = ap (λ l. le32 (u32 (hash_name s.name)) ++ l) (output_hashes-bytes ss)

length-ncall_hashes : (ss : Symtab) → length (ncall_hashes ss) ≡ length ss
length-ncall_hashes [] = refl
length-ncall_hashes (s ∷ ss) = omega (arith, length-ncall_hashes ss)

ncall_hashes-lt : (ss : Symtab) → All (λ h. h < 2 ^ 32) (ncall_hashes ss)
ncall_hashes-lt [] = tt
ncall_hashes-lt (s ∷ ss) = (omega arith, ncall_hashes-lt ss)

output_header-bytes :
    (memsize filesize ep count : ℕ)
    → memsize < 2 ^ 32
    → filesize < 2 ^ 32
    → ep < 2 ^ 32
    → count < 2 ^ 16
    → output_header memsize filesize ep count ≡ header memsize filesize ep count padding
unfolding output_header
output_header-bytes memsize filesize ep count hm hf he hc =
    let m : memsize % 2 ^ 32 ≡ memsize = omega arith in
    let f : filesize % 2 ^ 32 ≡ filesize = omega arith in
    let e : ep % 2 ^ 32 ≡ ep = omega arith in
    let c : count % 2 ^ 16 ≡ count = omega arith in rw (m, f, e, c) refl

module _ (stale : SymbolId → String) (fuel : ℕ) where
  -- The file that is written, if the start symbol has an address and the instructions are written.
  generate-image :
      (start_symbol : String) (start_va ep : ℕ) (l : Layout) (placed : List Placed)
      (ncalls : Symtab) (s s' : Asm) (body : List ℕ)
      → start_addr_of s start_symbol ≡ some ep
      → emit_insns stale fuel l.bss_va placed s ≡ done (body, s')
      → length ncalls < 2 ^ 16
      → generate stale fuel start_symbol start_va l placed ncalls s
        ≡ done (
          header
                (sub32 l.next_va start_va)
                (sub32 l.bss_va start_va)
                (sub32 ep start_va)
                (length (ncall_hashes ncalls))
                padding
              ++ (body ++ hash_bytes (ncall_hashes ncalls)),
          s',
        )
  unfolding generate
  generate-image start_symbol start_va ep l placed ncalls s s' body found emitted few =
      rw (found, generate)
        (rw (emitted, output_hashes-bytes ncalls, length-ncall_hashes ncalls)
          (ap (λ (h : List ℕ). done (h ++ (body ++ hash_bytes (ncall_hashes ncalls)), s'))
            (output_header-bytes (sub32 l.next_va start_va) (sub32 l.bss_va start_va)
              (sub32 ep start_va) (length ncalls) (omega arith) (omega arith) (omega arith) few)))

  -- What `vma_generate` writes to a regular file is loaded by `vm_load_fd` on both targets, if
  -- memory is granted and the hash of each native call is known: the entry is the start symbol's
  -- offset behind the address of the image, the bytes of the instructions stand in memory from
  -- there on, and the table holds the native procedures in the order of the native calls. The
  -- start symbol must have an address, the instructions must be as long as the file part of the
  -- layout says and no longer than the memory part, and there must be fewer than 2^16 native calls.
  pub generate-load_fd :
      (start_symbol : String) (start_va ep : ℕ) (l : Layout) (placed : List Placed)
      (ncalls : Symtab) (s s' : Asm) (body file : List ℕ)
      → start_addr_of s start_symbol ≡ some ep
      → emit_insns stale fuel l.bss_va placed s ≡ done (body, s')
      → length body ≡ sub32 l.bss_va start_va
      → sub32 l.bss_va start_va ≤ sub32 l.next_va start_va
      → length ncalls < 2 ^ 16
      → generate stale fuel start_symbol start_va l placed ncalls s ≡ done (file, s')
      → (fs : Files) (reg : Regular fs file) (t : Target) (lookup : ℕ → ℕ) (fd : fs.Handle)
        (memory : Memory) (base : ℕ)
      → All (λ h. lookup h ≢ 0) (ncall_hashes ncalls)
      → load_fd fs t
          (record { module_granted = true; image = some base; table_granted = true })
          lookup
          fd
          memory
        ≡ ok (
          record {
            base = base;
            entry = add32 base (sub32 ep start_va);
            ncalls_table = loaded_table lookup (ncall_hashes ncalls);
          },
          place memory base body,
        )
  generate-load_fd start_symbol start_va ep l placed ncalls s s' body file found emitted fills fits
        few written fs reg t lookup fd memory base known =
      load_fd-image fs (sub32 l.next_va start_va) (sub32 l.bss_va start_va) (sub32 ep start_va)
        padding body (ncall_hashes ncalls) (subst (Regular fs) file_eq reg) t lookup fd memory base
        (omega arith, omega arith, omega arith, omega (arith, length-ncall_hashes ncalls, few)) refl
        fills fits (ncall_hashes-lt ncalls) known
    where
      file_eq :
          file
          ≡ image fs
              (sub32 l.next_va start_va)
              (sub32 l.bss_va start_va)
              (sub32 ep start_va)
              padding
              body
              (ncall_hashes ncalls)
      file_eq = ap bytes_of (
          sym written
          ∙ generate-image start_symbol start_va ep l placed ncalls s s' body found emitted few)
