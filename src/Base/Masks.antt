-- ===== src/Base/Masks.antt =====
-- `&` with a mask of consecutive ones, at every width and position.
use Prim.Native.Nat.{
  ◌-◌, ◌<◌, ℕ, zero, suc, ◌+◌, ◌*◌, ◌/◌, ◌%◌, ◌^◌, ◌≤◌, min, bit_and, bit_and-bitwise,
}
use mette.Base.Digits.{run_stable}
use mathlib.Core.Path.{◌≡◌, refl, ap, ◌∙◌}
use native.Mathlib.Nat.{pow-suc, div-div-eq-div-mul}
use native.Mathlib.Omega.{arith}

-- The lowest digit of a conjunction, and the rest.
pub bit_and_low : (a b : ℕ) → bit_and a b ≡ bit_and (a / 2) (b / 2) * 2 + min (a % 2) (b % 2)
bit_and_low zero b = omega (arith, bit_and-bitwise 0 b, bit_and-bitwise 0 (b / 2))
bit_and_low (suc a) b =
    let half =
      run_stable (λ _. 0) min a (suc a / 2) (suc a / 2) (b / 2) (omega arith) (omega arith) in
    omega (arith, bit_and-bitwise (suc a) b, bit_and-bitwise (suc a / 2) (b / 2))

bit_and-zero_within : (k a : ℕ) → a ≤ k → bit_and a 0 ≡ 0
bit_and-zero_within k zero h = bit_and-bitwise 0 0
bit_and-zero_within zero (suc a) h = absurd (omega arith)
bit_and-zero_within (suc k) (suc a) h =
    omega (arith, bit_and_low (suc a) 0, bit_and-zero_within k (suc a / 2) (omega arith))

-- The mask of a byte takes the remainder.
bit_and-15 : (a : ℕ) → bit_and a 15 ≡ a % 16
bit_and-15 a = omega (
  arith,
  bit_and_low a 15,
  bit_and_low (a / 2) 7,
  bit_and_low (a / 2 / 2) 3,
  bit_and_low (a / 2 / 2 / 2) 1,
  bit_and-zero_within (a / 2 / 2 / 2 / 2) (a / 2 / 2 / 2 / 2) (omega arith),
)

pub bit_and-255 : (a : ℕ) → bit_and a 255 ≡ a % 256
bit_and-255 a = omega (
  arith,
  bit_and_low a 255,
  bit_and_low (a / 2) 127,
  bit_and_low (a / 2 / 2) 63,
  bit_and_low (a / 2 / 2 / 2) 31,
  bit_and-15 (a / 2 / 2 / 2 / 2),
)

-- A mask that is shifted up by `k`.
pub bit_and-shifted : (k a mask : ℕ) → bit_and a (mask * 2 ^ k) ≡ bit_and (a / 2 ^ k) mask * 2 ^ k
bit_and-shifted zero a mask =
    let e : mask * 2 ^ zero ≡ mask = omega arith in
    let d : a / 2 ^ zero ≡ a = omega arith in rw (e, d) (omega arith)
bit_and-shifted (suc k) a mask =
    let half : mask * 2 ^ suc k / 2 ≡ mask * 2 ^ k =
      omega (arith, ap (λ (t : ℕ). mask * t) (pow-suc 2 k)) in
    let even : mask * 2 ^ suc k % 2 ≡ 0 = omega (arith, ap (λ (t : ℕ). mask * t) (pow-suc 2 k)) in
    let double : 2 * 2 ^ k ≡ 2 ^ suc k = omega (arith, pow-suc 2 k) in
    let quarter : a / 2 / 2 ^ k ≡ a / 2 ^ suc k =
      div-div-eq-div-mul a 2 (2 ^ k) ∙ ap (λ (t : ℕ). a / t) double in
    let m : ℕ = bit_and (a / 2 ^ suc k) mask in
    bit_and_low a (mask * 2 ^ suc k)
    ∙ (rw (half, even, bit_and-shifted k (a / 2) mask, quarter)
        (omega (arith, ap (λ (t : ℕ). m * t) (pow-suc 2 k))))

-- A mask of ones that covers a number keeps it.
pub bit_and-covered : (k a : ℕ) → a < 2 ^ k → bit_and a (2 ^ k - 1) ≡ a
bit_and-covered zero a small = let e : a ≡ 0 = omega arith in rw e refl
bit_and-covered (suc k) a small =
    let double = pow-suc 2 k in
    let half : (2 ^ suc k - 1) / 2 ≡ 2 ^ k - 1 = omega arith in
    let rest = bit_and-covered k (a / 2) (omega arith) in
    omega (arith, bit_and_low a (2 ^ suc k - 1), ap (λ (m : ℕ). bit_and (a / 2) m) half)
