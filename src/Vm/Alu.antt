-- ===== src/Vm/Alu.antt =====
-- The arithmetic of `vm_step` in src/vm/vm_core.c: the TARGET_ macros, shifts and comparisons.
-- Each gives the values of `r0` and, where it sets it, `r1`.
pub mod Laws
use mette.Base.{ℕ, ◌+◌, ◌-◌, ◌*◌, ◌/◌, ◌%◌, ◌^◌, Bool, true, false, ◌==◌, ltb, leb, if◌then◌else◌}
use mette.Base.{◌&&◌, Result, ok, fault, div_error, bad_shift}
use mette.Base.{u32, add32, sub32, neg32, sext64, slt32, abs32}
use mette.Vm.Memory.{Target, i386, mips}

-- `r0` and `r1` after TARGET_MULU(ARG1, ARG2, r0, r1). On i386 `r1` keeps what it held.
unfoldable pub mulu : Target → ℕ → ℕ → ℕ → ℕ × ℕ
mulu i386 junk a b = (u32 (a * b), junk)
mulu mips junk a b = (a * b / 2 ^ 32 % 2 ^ 32, u32 (a * b))

-- TARGET_MULS; the signed product of two words in 64 bits.
abbrev pub signed_product : ℕ → ℕ → ℕ
signed_product a b = sext64 a * sext64 b % 2 ^ 64

unfoldable pub muls : Target → ℕ → ℕ → ℕ → ℕ × ℕ
muls i386 junk a b = (u32 (a * b), junk)
muls mips junk a b = (signed_product a b / 2 ^ 32, u32 (signed_product a b))

-- TARGET_DIVU(a, b): the remainder in `r0`, the quotient in `r1`.
unfoldable pub divu : ℕ → ℕ → Result (ℕ × ℕ)
divu a b = if b == 0 then fault div_error else ok (a % b, a / b)

-- The sign bit.
abbrev pub is_neg : ℕ → Bool
is_neg w = leb (2 ^ 31) w

abbrev pub signed_by : Bool → ℕ → ℕ
signed_by neg magnitude = if neg then neg32 magnitude else magnitude

-- TARGET_DIVS(a, b): C division, which rounds towards zero. The quotient of the least integer
-- by -1 does not fit.
unfoldable pub divs : ℕ → ℕ → Result (ℕ × ℕ)
divs a b =
    if b == 0
    then fault div_error
    else if a == 2 ^ 31 && b == 2 ^ 32 - 1
    then fault div_error
    else ok (
      signed_by (is_neg a) (abs32 a % abs32 b),
      signed_by (if is_neg a then (if is_neg b then false else true) else is_neg b)
          (abs32 a / abs32 b),
    )

-- Shifts of a 32-bit value; C defines them for counts below 32.
unfoldable pub lsl : ℕ → ℕ → Result ℕ
lsl a k = if ltb k 32 then ok (u32 (a * 2 ^ k)) else fault bad_shift

unfoldable pub lsr : ℕ → ℕ → Result ℕ
lsr a k = if ltb k 32 then ok (a / 2 ^ k) else fault bad_shift

unfoldable pub asr : ℕ → ℕ → Result ℕ
asr a k = if ltb k 32 then ok (u32 (sext64 a / 2 ^ k)) else fault bad_shift

-- The value of a C comparison.
abbrev pub flag : Bool → ℕ
flag b = if b then 1 else 0
