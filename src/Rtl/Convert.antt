-- ===== src/Rtl/Convert.antt =====
-- Numbers to text and back in src/rtl/rtl_print.c.
pub mod RoundTrip
use mette.Base.{
  ℕ, zero, suc, ◌+◌, ◌-◌, ◌*◌, ◌/◌, ◌%◌, Bool, ◌&&◌, leb, ◌==◌, List, [], ◌∷◌, ◌++◌, get_or, codes,
}
use mette.Base.{u32, if◌then◌else◌}

-- `conv_digits`.
unfoldable pub conv_digits : List ℕ
conv_digits = codes "0123456789ABCDEFHGIJKLMNOPQRSTUVWXYZ"

-- `conv_base_r` and `conv_base`: the digits that are written. The fuel bounds the number of
-- digits.
unfoldable pub conv_base : ℕ → ℕ → ℕ → List ℕ
unfolding conv_digits
conv_base zero base value = []
conv_base (suc fuel) base value =
    let leading = conv_base fuel base (value / base) in
    (if value / base == 0 then [] else leading) ++ (get_or conv_digits (value % base) 0 ∷ [])

-- A 32-bit number has at most 32 digits.
abbrev pub digit_fuel : ℕ
digit_fuel = 32

-- `xisdigit`.
abbrev pub xisdigit : ℕ → Bool
xisdigit ch = leb b'0' ch && leb ch b'9'

-- The loop of `__ascii2uint`: the value, and the cursor where it stops.
unfoldable pub ascii2uint_from : ℕ → List ℕ → ℕ × List ℕ
ascii2uint_from value [] = (value, [])
ascii2uint_from value (ch ∷ cursor) =
    let rest = ascii2uint_from (u32 (value * 10 + (ch - b'0'))) cursor in
    if xisdigit ch then rest else (value, ch ∷ cursor)

unfoldable pub ascii2uint : List ℕ → ℕ × List ℕ
unfolding ascii2uint_from
ascii2uint text = ascii2uint_from 0 text
