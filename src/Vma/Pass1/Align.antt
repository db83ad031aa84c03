-- ===== src/Vma/Pass1/Align.antt =====
-- `VMA_ALIGN` of src/vma/vma.h.
use mette.Base.{
  ℕ, ◌+◌, ◌-◌, ◌*◌, ◌/◌, ◌%◌, ◌^◌, ◌<◌, ◌≡◌, ap, ◌∙◌, arith, bit_and-shifted, bit_and-covered,
}
use mette.Vma.Pass1.{align}

-- Below the end of the address space an address is rounded up to a multiple of two or four.
pub align-two : (x : ℕ) → x + 1 < 2 ^ 32 → align x 2 ≡ (x + 1) / 2 * 2
unfolding align
align-two x small =
    let plain : (x + 1) % 2 ^ 32 ≡ x + 1 = omega arith in
    rw plain (
      bit_and-shifted 1 (x + 1) (2 ^ 31 - 1)
      ∙ ap (λ (q : ℕ). q * 2) (bit_and-covered 31 ((x + 1) / 2) (omega arith)))

pub align-four : (x : ℕ) → x + 3 < 2 ^ 32 → align x 4 ≡ (x + 3) / 4 * 4
unfolding align
align-four x small =
    let plain : (x + 3) % 2 ^ 32 ≡ x + 3 = omega arith in
    rw plain (
      bit_and-shifted 2 (x + 3) (2 ^ 30 - 1)
      ∙ ap (λ (q : ℕ). q * 4) (bit_and-covered 30 ((x + 3) / 4) (omega arith)))
