-- ===== src/Arch.antt =====
-- The instruction set, src/vm_arch/vm_opcodes.in and src/vm_arch/vm_gen_opcodes.c: the table of
-- instructions with the operands each takes and leaves, and the opcode byte made from it.
pub mod Laws
mod Tests
use mette.Base.{ℕ, suc, ◌+◌, ◌*◌, ◌^◌, Option, none, some, List, [], ◌∷◌, map, get_elem?, get_or}
use mette.Base.{length, bit_or, u8, leb, ◌==◌, if◌then◌else◌, String, codes}

-- The instructions in the order of the table; the same order as the machine instructions of
-- `vma_insn_type_t`.
pub data Opcode : Type 0 where
  add sub mulu muls divu divs and or xor not lsl lsr asr cmp_lt cmp_gt cmp_b cmp_a cmp_eq : Opcode
  ldc_0 ldc_1 ldc_2 ldc_ub ldc_sb ldc_w lea ldm_ub ldm_sb ldm_uh ldm_sh ldm_w stm_b stm_h : Opcode
  stm_w locals ldloc stloc dup swap pop br br_t br_f call ret icall ijmp ncall : Opcode

-- `vm_opcode_info_t`, with the mnemonic as its bytes. The descriptions are not used.
pub record OpcodeInfo : Type 0 where
  pub mnemonic : List ℕ
  pub stack_in : ℕ
  pub stack_out : ℕ

abbrev entry : String → ℕ → ℕ → OpcodeInfo
entry name stack_in stack_out = record {
  mnemonic = codes name;
  stack_in = stack_in;
  stack_out = stack_out;
}

-- The table `opcodes`.
unfoldable pub opcodes : List OpcodeInfo
opcodes =
    entry "ADD" 2 1
    ∷ entry "SUB" 2 1
    ∷ entry "MULU" 2 2
    ∷ entry "MULS" 2 2
    ∷ entry "DIVU" 2 2
    ∷ entry "DIVS" 2 2
    ∷ entry "AND" 2 1
    ∷ entry "OR" 2 1
    ∷ entry "XOR" 2 1
    ∷ entry "NOT" 2 1
    ∷ entry "LSL" 2 1
    ∷ entry "LSR" 2 1
    ∷ entry "ASR" 2 1
    ∷ entry "CMP.LT" 2 1
    ∷ entry "CMP.GT" 2 1
    ∷ entry "CMP.B" 2 1
    ∷ entry "CMP.A" 2 1
    ∷ entry "CMP.EQ" 2 1
    ∷ entry "LDC.0" 0 1
    ∷ entry "LDC.1" 0 1
    ∷ entry "LDC.2" 0 1
    ∷ entry "LDC.UB" 0 1
    ∷ entry "LDC.SB" 0 1
    ∷ entry "LDC.W" 0 1
    ∷ entry "LEA" 0 1
    ∷ entry "LDM.UB" 1 1
    ∷ entry "LDM.SB" 1 1
    ∷ entry "LDM.UH" 1 1
    ∷ entry "LDM.SH" 1 1
    ∷ entry "LDM.W" 1 1
    ∷ entry "STM.B" 2 0
    ∷ entry "STM.H" 2 0
    ∷ entry "STM.W" 2 0
    ∷ entry "LOCALS" 0 0
    ∷ entry "LDLOC" 0 1
    ∷ entry "STLOC" 1 0
    ∷ entry "DUP" 1 2
    ∷ entry "SWAP" 2 2
    ∷ entry "POP" 1 0
    ∷ entry "BR" 0 0
    ∷ entry "BR.T" 1 0
    ∷ entry "BR.F" 1 0
    ∷ entry "CALL" 0 0
    ∷ entry "RET" 0 0
    ∷ entry "ICALL" 1 0
    ∷ entry "IJMP" 1 0
    ∷ entry "NCALL" 0 0
    ∷ []

-- The labels of `vm_step` in the order of the generated `offtab`.
unfoldable pub offtab : List Opcode
offtab =
    add ∷ sub ∷ mulu ∷ muls ∷ divu ∷ divs ∷ and ∷ or ∷ xor ∷ not ∷ lsl ∷ lsr ∷ asr ∷ cmp_lt ∷ cmp_gt
    ∷ cmp_b ∷ cmp_a ∷ cmp_eq ∷ ldc_0 ∷ ldc_1 ∷ ldc_2 ∷ ldc_ub ∷ ldc_sb ∷ ldc_w ∷ lea ∷ ldm_ub
    ∷ ldm_sb ∷ ldm_uh ∷ ldm_sh ∷ ldm_w ∷ stm_b ∷ stm_h ∷ stm_w ∷ locals ∷ ldloc ∷ stloc ∷ dup ∷ swap
    ∷ pop ∷ br ∷ br_t ∷ br_f ∷ call ∷ ret ∷ icall ∷ ijmp ∷ ncall ∷ []

-- The value of an instruction as a C enumeration constant.
unfoldable pub index : Opcode → ℕ
index add = 0
index sub = 1
index mulu = 2
index muls = 3
index divu = 4
index divs = 5
index and = 6
index or = 7
index xor = 8
index not = 9
index lsl = 10
index lsr = 11
index asr = 12
index cmp_lt = 13
index cmp_gt = 14
index cmp_b = 15
index cmp_a = 16
index cmp_eq = 17
index ldc_0 = 18
index ldc_1 = 19
index ldc_2 = 20
index ldc_ub = 21
index ldc_sb = 22
index ldc_w = 23
index lea = 24
index ldm_ub = 25
index ldm_sb = 26
index ldm_uh = 27
index ldm_sh = 28
index ldm_w = 29
index stm_b = 30
index stm_h = 31
index stm_w = 32
index locals = 33
index ldloc = 34
index stloc = 35
index dup = 36
index swap = 37
index pop = 38
index br = 39
index br_t = 40
index br_f = 41
index call = 42
index ret = 43
index icall = 44
index ijmp = 45
index ncall = 46

-- The row of an instruction.
unfoldable pub info : Opcode → OpcodeInfo
unfolding opcodes index
info op = get_or opcodes (index op) (entry "" 0 0)

-- A dot is no character of a C label.
pub sanitize_mnem : List ℕ → List ℕ
sanitize_mnem text = map (λ c. if c == b'.' then b'_' else c) text

unfoldable pub make_opcode_value : ℕ → ℕ → ℕ
make_opcode_value index argcount = u8 (bit_or index (argcount * 2 ^ 6))

unfoldable pub codes_from : ℕ → List OpcodeInfo → List ℕ
codes_from index [] = []
codes_from index (row ∷ rows) = make_opcode_value index row.stack_in ∷ codes_from (suc index) rows

-- The array `vm_insn_to_opcode` that `main` writes, and nothing if there are too many rows: six
-- bits of the opcode byte hold the index.
unfoldable pub insn_to_opcode : List OpcodeInfo → Option (List ℕ)
insn_to_opcode rows = if leb 64 (length rows) then none else some (codes_from 0 rows)

-- The opcode byte of an instruction: its entry of `vm_insn_to_opcode`.
unfoldable pub opcode_byte : Opcode → ℕ
unfolding make_opcode_value info
opcode_byte op = make_opcode_value (index op) (info op).stack_in
