-- ===== src/Rtl/Convert/RoundTrip.antt =====
-- A number that src/rtl/rtl_print.c writes in decimal is read back.
use mathlib.Core.List.{append_assoc}
use native.Mathlib.Nat.{pow-suc}
use mette.Base.{Bool-cases, inl, inr, ap, ◌∙◌}
use mette.Base.{
  ℕ, zero, suc, ◌+◌, ◌-◌, ◌*◌, ◌/◌, ◌%◌, ◌^◌, ◌<◌, ◌≡◌, refl, arith, true, false, List, [], ◌∷◌,
  ◌++◌, get_or,
}
use mette.Base.{u32, ◌==◌, passes_below, passes_below_lem, ==→eq}
use mette.Rtl.Convert.{digit_fuel, conv_digits, conv_base, xisdigit, ascii2uint, ascii2uint_from}

-- A text of which no digit is the first character.
abbrev pub NoDigit : List ℕ → Type 0
NoDigit [] = Unit
NoDigit (ch ∷ _) = xisdigit ch ≡ false

decimal_table : passes_below (λ d. get_or conv_digits d 0 == d + b'0') 10 ≡ true
unfolding passes_below conv_digits
decimal_table = refl

digit-decimal : (d : ℕ) → d < 10 → get_or conv_digits d 0 ≡ d + b'0'
digit-decimal d low = ==→eq _ _ (passes_below_lem _ 10 d low decimal_table)

xisdigit-decimal : (d : ℕ) → d < 10 → xisdigit (d + b'0') ≡ true
xisdigit-decimal d low = ground arith

stops : (value : ℕ) (rest : List ℕ) → NoDigit rest → ascii2uint_from value rest ≡ (value, rest)
unfolding ascii2uint_from
stops value [] h = refl
stops value (ch ∷ rest) h = rw h refl

digit_read :
    (w d : ℕ) (rest : List ℕ)
    → d < 10
    → ascii2uint_from w ((d + b'0') ∷ rest) ≡ ascii2uint_from (u32 (w * 10 + d)) rest
unfolding ascii2uint_from
digit_read w d rest low =
    let e : d + b'0' - b'0' ≡ d = omega arith in rw (xisdigit-decimal d low, e) refl

conv_base_read :
    (fuel v : ℕ) (rest : List ℕ)
    → v < 10 ^ fuel
    → v < 2 ^ 32
    → ascii2uint_from 0 (conv_base fuel 10 v ++ rest) ≡ ascii2uint_from v rest
unfolding conv_base
conv_base_read zero v rest few small = let z : v ≡ 0 = omega arith in rw z refl
conv_base_read (suc fuel) v rest few small =
    let leading =
      conv_base_read fuel (v / 10) ((v % 10 + b'0') ∷ rest) (omega (arith, pow-suc 10 fuel))
        (omega arith) in
    let last = digit-decimal (v % 10) (omega arith) in
    let whole : (v / 10 * 10 + v % 10) % 2 ^ 32 ≡ v = omega arith in
    let first : (0 * 10 + v % 10) % 2 ^ 32 ≡ v % 10 = omega arith in
    elim (Bool-cases (v / 10 == 0)) [
      | inl zero_left ↦
          let e = ==→eq (v / 10) 0 zero_left in
          let all : v % 10 ≡ v = omega arith in
          rw (zero_left, last)
            (digit_read 0 (v % 10) rest (omega arith)
              ∙ ap (λ n. ascii2uint_from n rest) (first ∙ all))
      | inr more ↦
          rw (more, last)
            (rw (append_assoc (conv_base fuel 10 (v / 10)) ((v % 10 + b'0') ∷ []) rest) (
              leading
              ∙ digit_read (v / 10) (v % 10) rest (omega arith)
              ∙ ap (λ n. ascii2uint_from n rest) whole))
    ]

-- A 32-bit number written in decimal, with anything but a digit behind it, is read back as it
-- was, and the cursor stops behind it.
pub ascii2uint-conv_base :
    (v : ℕ) (rest : List ℕ)
    → v < 2 ^ 32
    → NoDigit rest
    → ascii2uint (conv_base digit_fuel 10 v ++ rest) ≡ (v, rest)
unfolding ascii2uint
ascii2uint-conv_base v rest small end =
    conv_base_read digit_fuel v rest (omega arith) small ∙ stops v rest end
