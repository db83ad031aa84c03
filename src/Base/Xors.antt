-- ===== src/Base/Xors.antt =====
-- `^` of words: its width, and what it does to a number that is larger than a word.
use Prim.Native.Nat.{
  ℕ, zero, suc, ◌+◌, ◌*◌, ◌/◌, ◌%◌, ◌^◌, ◌<◌, ◌≤◌, bit_xor, differ, bit_xor-bitwise,
}
use mette.Base.Digits.{run_stable}
use mathlib.Core.Path.{◌≡◌, refl, ap, ◌∙◌}
use native.Mathlib.Nat.{pow-suc, mod-add-div'}
use native.Mathlib.Omega.{arith}

differ-lt : (x y : ℕ) → x < 2 → y < 2 → differ x y < 2
differ-lt zero y hx hy = hy
differ-lt (suc zero) zero hx hy = hx
differ-lt (suc zero) (suc y) hx hy = omega arith
differ-lt (suc (suc x)) y hx hy = absurd (omega arith)

bit_xor_low : (a b : ℕ) → bit_xor a b ≡ bit_xor (a / 2) (b / 2) * 2 + differ (a % 2) (b % 2)
bit_xor_low zero b = omega (arith, bit_xor-bitwise 0 b, bit_xor-bitwise 0 (b / 2))
bit_xor_low (suc a) b =
    let half =
      run_stable (λ y. y) differ a (suc a / 2) (suc a / 2) (b / 2) (omega arith) (omega arith) in
    omega (arith, bit_xor-bitwise (suc a) b, bit_xor-bitwise (suc a / 2) (b / 2))

differ-zero : (x : ℕ) → differ x 0 ≡ x
differ-zero zero = refl
differ-zero (suc x) = refl

bit_xor-zero : (k a : ℕ) → a ≤ k → bit_xor a 0 ≡ a
bit_xor-zero k zero h = bit_xor-bitwise 0 0
bit_xor-zero zero (suc a) h = absurd (omega arith)
bit_xor-zero (suc k) (suc a) h = omega (
  arith,
  bit_xor_low (suc a) 0,
  bit_xor-zero k (suc a / 2) (omega arith),
  differ-zero (suc a % 2),
)

pub bit_xor-lt : (k a b : ℕ) → a < 2 ^ k → b < 2 ^ k → bit_xor a b < 2 ^ k
bit_xor-lt zero a b ha hb =
    let za : a ≡ 0 = omega arith in rw za (omega (arith, bit_xor-bitwise 0 b))
bit_xor-lt (suc k) a b ha hb =
    let double = pow-suc 2 k in
    omega (
      arith,
      bit_xor_low a b,
      bit_xor-lt k (a / 2) (b / 2) (omega arith) (omega arith),
      differ-lt (a % 2) (b % 2) (omega arith) (omega arith),
    )

-- What stands above the word in the first operand stays there.
bit_xor-above :
    (k low high b : ℕ)
    → low < 2 ^ k
    → b < 2 ^ k
    → bit_xor (low + high * 2 ^ k) b ≡ bit_xor low b + high * 2 ^ k
bit_xor-above zero low high b hl hb =
    let zl : low ≡ 0 = omega arith in
    let zb : b ≡ 0 = omega arith in
    let plain : 0 + high * 2 ^ 0 ≡ high = omega arith in
    rw (zl, zb)
      (ap (λ (t : ℕ). bit_xor t 0) plain ∙ bit_xor-zero high high (omega arith) ∙ omega arith)
bit_xor-above (suc k) low high b hl hb =
    let double : high * 2 ^ suc k ≡ 2 * (high * 2 ^ k) =
      omega (arith, ap (λ (t : ℕ). high * t) (pow-suc 2 k)) in
    let half : (low + high * 2 ^ suc k) / 2 ≡ low / 2 + high * 2 ^ k = omega arith in
    let last : (low + high * 2 ^ suc k) % 2 ≡ low % 2 = omega arith in
    let upper =
      bit_xor-above k (low / 2) high (b / 2) (omega (arith, pow-suc 2 k))
        (omega (arith, pow-suc 2 k)) in
    omega (
      arith,
      bit_xor_low (low + high * 2 ^ suc k) b,
      bit_xor_low low b,
      ap (λ (t : ℕ). bit_xor t (b / 2)) half,
      ap (λ (t : ℕ). differ t (b % 2)) last,
    )

-- The low word of `a ^ b` for a word `b` is that of the low word of `a`.
pub bit_xor-word : (a b : ℕ) → b < 2 ^ 32 → bit_xor a b % 2 ^ 32 ≡ bit_xor (a % 2 ^ 32) b
bit_xor-word a b small =
    let whole : a % 2 ^ 32 + a / 2 ^ 32 * 2 ^ 32 ≡ a = mod-add-div' a (2 ^ 32) in
    let split = bit_xor-above 32 (a % 2 ^ 32) (a / 2 ^ 32) b (omega arith) small in
    omega (
      arith,
      split,
      ap (λ (t : ℕ). bit_xor t b) whole,
      bit_xor-lt 32 (a % 2 ^ 32) b (omega arith) small,
    )
