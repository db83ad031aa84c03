-- ===== src/Arch/Laws.antt =====
-- The opcode bytes that src/vm_arch/vm_gen_opcodes.c makes.
use mette.Base.{ℕ, ◌+◌, ◌*◌, ◌/◌, ◌%◌, ◌<◌, ◌≡◌, refl, arith, true, some, get_elem?}
use mette.Base.{◌==◌, ==→eq, bit_and, passes_below, passes_below_lem}
use mette.Arch.{Opcode, opcodes, offtab, index, info, make_opcode_value}
use mette.Arch.{insn_to_opcode, codes_from, opcode_byte}
use mette.Base.{List, sym, ap, ◌∙◌, ◌^◌}

fields_table : passes_below (λ x. make_opcode_value (x % 64) (x / 64) == x) 256 ≡ true
unfolding passes_below make_opcode_value
fields_table = refl

mask_table : passes_below (λ x. bit_and x 0x3f == x % 64) 256 ≡ true
unfolding passes_below
mask_table = refl

-- The mask of `vm_step` keeps the low six bits.
pub bit_and-mask6 : (x : ℕ) → x < 256 → bit_and x 0x3f ≡ x % 64
bit_and-mask6 x h = ==→eq _ _ (passes_below_lem _ 256 x h mask_table)

-- An index below 64 and an operand count below 4 share the byte without overlap.
pub make_opcode_value-fields : (i n : ℕ) → i < 64 → n < 4 → make_opcode_value i n ≡ n * 64 + i
make_opcode_value-fields i n hi hn =
    let e : (n * 64 + i) % 64 ≡ i = omega arith in
    let d : (n * 64 + i) / 64 ≡ n = omega arith in
    let p = ==→eq _ _ (passes_below_lem _ 256 (n * 64 + i) (omega arith) fields_table) in
    rw (e, d) at p

codes_from-opcode_byte :
    (op : Opcode) → get_elem? (codes_from 0 opcodes) (index op) ≡ some (opcode_byte op)
unfolding codes_from opcodes index opcode_byte
codes_from-opcode_byte Opcode.add = refl
codes_from-opcode_byte _ = refl

pub opcode_byte-stack_in :
    (op : Opcode) → (opcode_byte op / 2 ^ 6 ≡ (info op).stack_in) × (opcode_byte op < 256)
unfolding opcode_byte
opcode_byte-stack_in Opcode.add = (refl, omega arith)
opcode_byte-stack_in _ = (refl, omega arith)

pub offtab-opcode_byte : (op : Opcode) → get_elem? offtab (bit_and (opcode_byte op) 0x3f) ≡ some op
unfolding offtab opcode_byte
offtab-opcode_byte Opcode.add = refl
offtab-opcode_byte _ = refl

-- The generated table of opcode bytes exists, has a row for each instruction, and its bytes
-- are taken apart by `vm_step` into the instruction and its operand count.
pub insn_to_opcode-decodes :
    (op : Opcode)
    → (table : List ℕ) × (insn_to_opcode opcodes ≡ some table)
      × (get_elem? table (index op) ≡ some (opcode_byte op))
      × (opcode_byte op / 2 ^ 6 ≡ (info op).stack_in)
      × (get_elem? offtab (bit_and (opcode_byte op) 0x3f) ≡ some op)
unfolding insn_to_opcode
insn_to_opcode-decodes op = (
  codes_from 0 opcodes,
  unfold opcodes in refl,
  codes_from-opcode_byte op,
  (opcode_byte-stack_in op).0,
  offtab-opcode_byte op,
)

-- No two instructions share an opcode byte.
opcode_byte-injective : (a b : Opcode) → opcode_byte a ≡ opcode_byte b → a ≡ b
opcode_byte-injective a b e =
    let h : some a ≡ some b =
      sym (offtab-opcode_byte a)
      ∙ ap (λ (x : ℕ). get_elem? offtab (bit_and x 0x3f)) e
      ∙ offtab-opcode_byte b in
    cc
