-- ===== src/Vm/Memory.antt =====
-- The memory that bytecode sees, and the unaligned reads and byte swaps of src/vm/vm_misc.h.
-- An address is a 32-bit word; `none` is memory that is not mapped.
pub mod Laws
pub mod RoundTrip
use mette.Base.{ℕ, ◌+◌, ◌*◌, ◌/◌, ◌%◌, ◌^◌, Bool, true, false, ◌==◌, if◌then◌else◌, ◌&&◌, not}
use mette.Base.{Option, some, none, List, [], ◌∷◌, bit_and, bit_or, add32, u8, u16, le16, le32}
use mette.Base.{Result, ok, fault, ◌>>=◌, access, bad_access}

-- The targets of the Makefile that vm_core.c has multiplications for. MIPS is big-endian
-- (`TARGET_IS_BE`), and traps on a half word or word at an address that is not aligned.
pub data Target : Type 0 where
  i386 mips : Target

abbrev pub is_be : Target → Bool
is_be i386 = false
is_be mips = true

abbrev pub Memory : Type 0
Memory = ℕ → Option ℕ

unfoldable pub load8 : Memory → ℕ → Result ℕ
load8 m addr = access (m addr)

-- `vm_fetch16_ua`.
unfoldable pub fetch16_ua : Target → Memory → ℕ → Result ℕ
unfolding load8
fetch16_ua t m addr = do
  p0 ← load8 m addr
  p1 ← load8 m (add32 addr 1)
  ok (if is_be t then bit_or p1 (p0 * 2 ^ 8) else bit_or p0 (p1 * 2 ^ 8))

-- `vm_fetch32_ua`.
unfoldable pub fetch32_ua : Target → Memory → ℕ → Result ℕ
unfolding load8
fetch32_ua t m addr = do
  p0 ← load8 m addr
  p1 ← load8 m (add32 addr 1)
  p2 ← load8 m (add32 addr 2)
  p3 ← load8 m (add32 addr 3)
  ok (
      if is_be t
      then bit_or (bit_or (bit_or p3 (p2 * 2 ^ 8)) (p1 * 2 ^ 16)) (p0 * 2 ^ 24)
      else bit_or (bit_or (bit_or p0 (p1 * 2 ^ 8)) (p2 * 2 ^ 16)) (p3 * 2 ^ 24))

unfoldable pub bswap16 : ℕ → ℕ
bswap16 v = u16 (bit_or (bit_and v 0xff00 / 2 ^ 8) (bit_and v 0x00ff * 2 ^ 8))

unfoldable pub bswap32 : ℕ → ℕ
bswap32 v =
    bit_or
      (bit_or (bit_or (bit_and v 0xff000000 / 2 ^ 24) (bit_and v 0x00ff0000 / 2 ^ 8))
        (bit_and v 0x0000ff00 * 2 ^ 8))
      (bit_and v 0x000000ff * 2 ^ 24)

-- The access of `*(uint16_t *)addr` and `*(vm_operand_t *)addr`, of `size` bytes.
abbrev pub misaligned : Target → ℕ → ℕ → Bool
misaligned t size addr = is_be t && not (addr % size == 0)

unfoldable pub load16 : Target → Memory → ℕ → Result ℕ
unfolding fetch16_ua
load16 t m addr = if misaligned t 2 addr then fault bad_access else fetch16_ua t m addr

unfoldable pub load32 : Target → Memory → ℕ → Result ℕ
unfolding fetch32_ua
load32 t m addr = if misaligned t 4 addr then fault bad_access else fetch32_ua t m addr

abbrev pub update : Memory → ℕ → ℕ → Memory
update m addr v q = if addr == q then some v else m q

unfoldable pub store8 : Memory → ℕ → ℕ → Result Memory
store8 m addr v = do _ ← access (m addr); ok (update m addr (u8 v))

-- The bytes of a value in the order of the target.
abbrev pub bytes16 : Target → ℕ → ℕ × ℕ
bytes16 i386 v = (v % 256, v / 256 % 256)
bytes16 mips v = (v / 256 % 256, v % 256)

unfoldable pub store16 : Target → Memory → ℕ → ℕ → Result Memory
unfolding store8
store16 t m addr v =
    if misaligned t 2 addr
    then fault bad_access
    else (do m1 ← store8 m addr (bytes16 t v).0; store8 m1 (add32 addr 1) (bytes16 t v).1)

abbrev pub bytes32 : Target → ℕ → ℕ × ℕ × ℕ × ℕ
bytes32 i386 v = (v % 256, v / 256 % 256, v / 65536 % 256, v / 16777216 % 256)
bytes32 mips v = (v / 16777216 % 256, v / 65536 % 256, v / 256 % 256, v % 256)

unfoldable pub store32 : Target → Memory → ℕ → ℕ → Result Memory
unfolding store8
store32 t m addr v = if misaligned t 4 addr then fault bad_access else (do
  m1 ← store8 m addr (bytes32 t v).0
  m2 ← store8 m1 (add32 addr 1) (bytes32 t v).1
  m3 ← store8 m2 (add32 addr 2) (bytes32 t v).2
  store8 m3 (add32 addr 3) (bytes32 t v).3)
