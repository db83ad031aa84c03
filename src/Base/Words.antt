-- ===== src/Base/Words.antt =====
-- Machine words of 8, 16 and 32 bits as native numbers, their two's complement readings, and
-- the little- and big-endian byte strings of a word.
use Prim.Native.Nat.{ℕ, ◌+◌, ◌-◌, ◌/◌, ◌%◌, ◌^◌, ◌<◌}
use mathlib.Core.Bool.{Bool}
use mathlib.Core.List.{List, [], ◌∷◌}
use native.Mathlib.Omega.{arith}
use mette.Base.Bools.{ltb, if◌then◌else◌}

-- The casts to `uint8_t`, `uint16_t`, `uint32_t`.
abbrev pub u8 : ℕ → ℕ
u8 n = n % 2 ^ 8

abbrev pub u16 : ℕ → ℕ
u16 n = n % 2 ^ 16

abbrev pub u32 : ℕ → ℕ
u32 n = n % 2 ^ 32

-- `a + b`, `a - b`, `-a` and `~a` of 32-bit operands.
abbrev pub add32 : ℕ → ℕ → ℕ
add32 a b = (a + b) % 2 ^ 32

abbrev pub sub32 : ℕ → ℕ → ℕ
sub32 a b = (a + 2 ^ 32 - b) % 2 ^ 32

abbrev pub neg32 : ℕ → ℕ
neg32 a = (2 ^ 32 - a) % 2 ^ 32

abbrev pub not32 : ℕ → ℕ
not32 a = 2 ^ 32 - 1 - a

-- The conversion of an `int8_t` or `int16_t` bit pattern to 32 bits, and of 32 bits to 64.
abbrev pub sext8 : ℕ → ℕ
sext8 b = if ltb b 128 then b else b + (2 ^ 32 - 2 ^ 8)

abbrev pub sext16 : ℕ → ℕ
sext16 h = if ltb h 32768 then h else h + (2 ^ 32 - 2 ^ 16)

abbrev pub sext64 : ℕ → ℕ
sext64 w = if ltb w (2 ^ 31) then w else w + (2 ^ 64 - 2 ^ 32)

-- `a < b` of the signed readings: the sign bit is flipped, which keeps the order.
abbrev pub slt32 : ℕ → ℕ → Bool
slt32 a b = ltb ((a + 2 ^ 31) % 2 ^ 32) ((b + 2 ^ 31) % 2 ^ 32)

-- The absolute value of the signed reading.
abbrev pub abs32 : ℕ → ℕ
abs32 w = if ltb w (2 ^ 31) then w else 2 ^ 32 - w

-- The bytes of a word, lowest first.
abbrev pub le16 : ℕ → List ℕ
le16 v = (v % 256) ∷ (v / 256 % 256) ∷ []

abbrev pub le32 : ℕ → List ℕ
le32 v = (v % 256) ∷ (v / 256 % 256) ∷ (v / 65536 % 256) ∷ (v / 16777216 % 256) ∷ []

pub sext8-lt : (b : ℕ) → b < 256 → sext8 b < 2 ^ 32
sext8-lt b h = ground arith

pub sext16-lt : (h : ℕ) → h < 65536 → sext16 h < 2 ^ 32
sext16-lt h p = ground arith
