-- ===== src/Base/Bits.antt =====
-- `|` of values whose bits do not meet is a sum, at every width.
use Prim.Native.Nat.{ℕ, zero, suc, ◌+◌, ◌*◌, ◌/◌, ◌%◌, ◌^◌, ◌<◌, max, bit_or, bit_or-bitwise}
use mette.Base.Digits.{run_stable}
use mathlib.Core.Path.{◌≡◌, ap, refl}
use native.Mathlib.Nat.{pow-suc}
use native.Mathlib.Omega.{arith}

-- The lowest digit of a disjunction, and the rest.
pub bit_or_low : (a b : ℕ) → bit_or a b ≡ bit_or (a / 2) (b / 2) * 2 + max (a % 2) (b % 2)
bit_or_low zero b = omega (arith, bit_or-bitwise 0 b, bit_or-bitwise 0 (b / 2))
bit_or_low (suc a) b =
    let half =
      run_stable (λ y. y) max a (suc a / 2) (suc a / 2) (b / 2) (omega arith) (omega arith) in
    omega (arith, bit_or-bitwise (suc a) b, bit_or-bitwise (suc a / 2) (b / 2))

pub bit_or-zero_left : (b : ℕ) → bit_or 0 b ≡ b
bit_or-zero_left b = bit_or-bitwise 0 b

-- `low | (high << k)` where `low` fits in `k` bits.
pub bit_or-shifted : (k low high : ℕ) → low < 2 ^ k → bit_or low (high * 2 ^ k) ≡ low + high * 2 ^ k
bit_or-shifted zero low high fits =
    let e : low ≡ 0 = omega arith in rw (e, bit_or-zero_left) (omega arith)
bit_or-shifted (suc k) low high fits =
    let double : high * 2 ^ suc k ≡ 2 * (high * 2 ^ k) =
      omega (arith, ap (λ (t : ℕ). high * t) (pow-suc 2 k)) in
    let half : (high * 2 ^ suc k) / 2 ≡ high * 2 ^ k = omega arith in
    let tail = bit_or-shifted k (low / 2) high (omega (arith, pow-suc 2 k)) in
    let split = bit_or_low low (high * 2 ^ suc k) in
    omega (arith, ap (λ (t : ℕ). bit_or (low / 2) t) half)

-- `low + high * 2 ^ k`, the disjunction the other way round, at the widths of the code.
pub bit_or-bytes :
    (b0 b1 b2 b3 : ℕ)
    → b0 < 256
    → b1 < 256
    → b2 < 256
    → bit_or (bit_or (bit_or b0 (b1 * 2 ^ 8)) (b2 * 2 ^ 16)) (b3 * 2 ^ 24)
      ≡ b0 + b1 * 256 + b2 * 65536 + b3 * 16777216
bit_or-bytes b0 b1 b2 b3 h0 h1 h2 =
    rw
      (
        bit_or-shifted 8 b0 b1 (omega arith),
        bit_or-shifted 16 (b0 + b1 * 2 ^ 8) b2 (omega arith),
        bit_or-shifted 24 (b0 + b1 * 2 ^ 8 + b2 * 2 ^ 16) b3 (omega arith),
      )
      (omega arith)

-- `|` does not depend on the order of its operands.
pub bit_or_comm : (k a b : ℕ) → a < 2 ^ k → b < 2 ^ k → bit_or a b ≡ bit_or b a
bit_or_comm zero a b ha hb =
    let ea : a ≡ 0 = omega arith in let eb : b ≡ 0 = omega arith in rw (ea, eb) refl
bit_or_comm (suc k) a b ha hb =
    let halves =
      bit_or_comm k (a / 2) (b / 2) (omega (arith, pow-suc 2 k)) (omega (arith, pow-suc 2 k)) in
    let digits : max (a % 2) (b % 2) ≡ max (b % 2) (a % 2) = omega arith in
    omega (arith, halves, digits, bit_or_low a b, bit_or_low b a)
