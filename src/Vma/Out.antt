-- ===== src/Vma/Out.antt =====
-- src/vma/vma_out.c: the module file that the assembler writes.
pub mod Extent
pub mod Hash
pub mod Loadable
pub mod Assembled
use mette.Base.{
  ℕ, ◌+◌, ◌-◌, ◌*◌, ◌^◌, ◌/◌, Bool, true, false, List, [], ◌∷◌, ◌++◌, map, length, none, some,
}
use mette.Base.{
  Option, String, u8, u32, sub32, le16, le32, bit_xor, ltb, get_elem?, codes, if◌then◌else◌,
}
use mette.Base.{replicate}
use mette.Vma.Syntax.{SymbolId, Symbol, Meaning, label}
use mette.Vma.Symtab.{Symtab, lookup}
use mette.Vma.Eval.{Outcome, done, aborted, ◌>>=◌, Asm}
use mette.Vma.Pass1.{Placed, Layout}
use mette.Vma.Emit.{Written, output_u8, output_u16, output_u32, emit_insn}

-- `vma_hash_name` for the characters of a name; a `char` of 128 or more counts as negative.
unfoldable pub hash_from : ℕ → List ℕ → ℕ
hash_from hash [] = hash
hash_from hash (c ∷ cs) =
    hash_from
      (bit_xor (u32 (u32 (hash * 61) + (if ltb c 128 then c else c + (2 ^ 32 - 2 ^ 8))))
        (hash / 2 ^ 16))
      cs

unfoldable pub hash_name : String → ℕ
unfolding hash_from
hash_name name = hash_from 0 (codes name)

-- The hashes of the native calls, in the order of their table.
unfoldable pub output_hashes : Symtab → List ℕ
unfolding hash_name
output_hashes [] = []
output_hashes (sym ∷ syms) = output_u32 (hash_name sym.name) ++ output_hashes syms

-- The header of 32 bytes.
unfoldable pub output_header : ℕ → ℕ → ℕ → ℕ → List ℕ
output_header memsize filesize ep count =
    output_u8 b'B'
    ++ (output_u8 b'A'
        ++ (output_u8 b'R'
            ++ (output_u8 b'F'
                ++ (output_u32 memsize
                    ++ (output_u32 filesize
                        ++ (output_u32 ep
                            ++ (output_u16 count
                                ++ (output_u16 0xFFFF
                                    ++ (output_u32 0xFFFF
                                        ++ (output_u32 0xFFFF ++ output_u32 0xFFFF))))))))))

-- The address of the start symbol: that of the instruction that its label names. The address of
-- a symbol that is no label is undefined, since the union holds no instruction: the model stops.
unfoldable pub start_addr_of : Asm → String → Option ℕ
unfolding lookup
start_addr_of s name = elim (lookup s.tables.globals name) [
  | none ↦ none
  | some i ↦ elim (get_elem? s.tables.globals i) [
    | none ↦ none
    | some sym ↦ elim sym.meaning [ label k ↦ get_elem? s.addrs k | _ ↦ none ]
  ]
]

module _ (stale : SymbolId → String) (fuel : ℕ) where
  -- The loop over the instructions that stand before the reserved space.
  unfoldable pub emit_insns : ℕ → List Placed → Asm → Written
  unfolding emit_insn
  emit_insns bss_va [] s = done ([], s)
  emit_insns bss_va (p ∷ ps) s =
      if ltb p.start_addr bss_va
      then (emit_insn stale fuel p s >>= λ r.
          emit_insns bss_va ps r.1 >>= λ q. done (r.0 ++ q.0, q.1))
      else done ([], s)

  -- `vma_generate`.
  unfoldable pub generate : String → ℕ → Layout → List Placed → Symtab → Asm → Written
  unfolding start_addr_of output_header emit_insns output_hashes
  generate start_symbol start_va l placed ncalls s = elim (start_addr_of s start_symbol) [
    | none ↦ aborted
    | some ep ↦ emit_insns l.bss_va placed s >>= λ r. done (
      output_header (sub32 l.next_va start_va) (sub32 l.bss_va start_va) (sub32 ep start_va)
            (length ncalls)
          ++ (r.0 ++ output_hashes ncalls),
      r.1,
    )
  ]
