-- ===== src/Arch/Tests.antt =====
-- Opcode bytes of src/vm_arch, as in the generated `vm_opcodes.codes.tab`.
use mette.Base.{ℕ, ◌≡◌, ◌/◌, ◌^◌, some, get_elem?, bit_and, refl, arith, List, codes}
use mette.Arch.{
  Opcode, opcodes, offtab, index, info, insn_to_opcode, opcode_byte, make_opcode_value,
  sanitize_mnem,
}
use mette.Arch.Laws.{make_opcode_value-fields, insn_to_opcode-decodes}

make_opcode_value-fields_example : make_opcode_value 10 2 ≡ 138
make_opcode_value-fields_example = make_opcode_value-fields 10 2 (omega arith) (omega arith)

generated_bytes :
    (opcode_byte Opcode.add ≡ 0x80)
    × (opcode_byte Opcode.not ≡ 0x89)
    × (opcode_byte Opcode.dup ≡ 0x64)
    × (opcode_byte Opcode.ncall ≡ 0x2e)
unfolding opcode_byte
generated_bytes = (refl, refl, refl, refl)

sanitize_mnem_dot : sanitize_mnem (codes "CMP.LT") ≡ codes "CMP_LT"
unfolding sanitize_mnem
sanitize_mnem_dot = refl

insn_to_opcode-decodes_example :
    (table : List ℕ) × (insn_to_opcode opcodes ≡ some table)
    × (get_elem? table (index Opcode.cmp_eq) ≡ some (opcode_byte Opcode.cmp_eq))
    × (opcode_byte Opcode.cmp_eq / 2 ^ 6 ≡ (info Opcode.cmp_eq).stack_in)
    × (get_elem? offtab (bit_and (opcode_byte Opcode.cmp_eq) 0x3f) ≡ some Opcode.cmp_eq)
insn_to_opcode-decodes_example = insn_to_opcode-decodes Opcode.cmp_eq
