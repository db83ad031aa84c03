-- ===== src/Rtl/Memory/Align.antt =====
-- `ALIGN` of src/rtl/rtl_memory.c and the sizes of slots.
use mette.Base.{
  ℕ, ◌+◌, ◌-◌, ◌*◌, ◌/◌, ◌%◌, ◌^◌, ◌≤◌, ◌<◌, ◌≡◌, ap, ◌∙◌, arith, bit_and-shifted, bit_and-covered,
  add32,
}
use mette.Rtl.Arena.{align}
use mette.Rtl.Memory.{units_of}

pub align-eight : (x : ℕ) → align x 8 ≡ (x + 7) % 2 ^ 32 / 8 * 8
unfolding align
align-eight x =
    bit_and-shifted 3 (add32 x 7) (2 ^ 29 - 1)
    ∙ ap (λ (q : ℕ). q * 8) (bit_and-covered 29 ((x + 7) % 2 ^ 32 / 8) (omega arith))

pub align-page : (x : ℕ) → align x 4096 ≡ (x + 4095) % 2 ^ 32 / 4096 * 4096
unfolding align
align-page x =
    bit_and-shifted 12 (add32 x 4095) (2 ^ 20 - 1)
    ∙ ap (λ (q : ℕ). q * 4096) (bit_and-covered 20 ((x + 4095) % 2 ^ 32 / 4096) (omega arith))

pub units_of-pos : (size : ℕ) → 0 < units_of size
unfolding units_of
units_of-pos size = omega (arith, align-eight size)

-- The units of a slot hold its header and the size that is asked for, and less than one unit more,
-- unless the size is within 7 bytes of the end of the address space.
pub units_of-bounds :
    (size : ℕ)
    → size + 7 < 2 ^ 32
    → (size + 8 ≤ units_of size * 8) × (units_of size * 8 < size + 16)
unfolding units_of
units_of-bounds size small = omega (arith, align-eight size)

-- The seven largest sizes are rounded to none: they get a slot that is a header only.
pub units_of-wrap : (size : ℕ) → 2 ^ 32 ≤ size + 7 → size < 2 ^ 32 → units_of size ≡ 1
unfolding units_of
units_of-wrap size large word = omega (arith, align-eight size)
