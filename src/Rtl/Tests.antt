-- ===== src/Rtl/Tests.antt =====
-- The runtime library on small inputs.
use mette.Base.{Option, some, ◌^◌, Returns}
use mette.Base.{
  ℕ, ◌+◌, ◌-◌, ◌≡◌, refl, arith, false, List, [], ◌∷◌, ◌++◌, length, take, min, replicate, Result,
  ok, codes, u8,
}
use mette.Rtl.Strbuf.{Strbuf, append_bytes, append_asciiz}
use mette.Rtl.Strbuf.Append.{IsValid, contents, append_bytes-contents, append_asciiz-contents}
use mette.Rtl.Convert.{conv_base, digit_fuel, ascii2uint}
use mette.Rtl.Convert.RoundTrip.{ascii2uint-conv_base}
use mette.Rtl.Print.{PrintContext, put_char}
use mette.Rtl.Format.{xprint_fd, print_internal}
use mette.Rtl.Format.Fuel.{Finished, print_internal-Finished}
use mette.Rtl.Print.Writer
use mette.Rtl.Print.Writer.{pending, put_char-pending, put_char-flush}

-- "ab" in a buffer of six bytes.
abbrev two : Strbuf
two = record { length = 2; max_length = 6; bytes = 97 ∷ 98 ∷ 0 ∷ 0 ∷ 0 ∷ 0 ∷ [] }

two-IsValid : IsValid two
two-IsValid = record { within = omega arith; bounded = omega arith; sized = refl }

append_bytes-contents_example :
    (sb' : Strbuf) × (append_bytes two (1 ∷ 2 ∷ 3 ∷ 4 ∷ 5 ∷ []) 5 ≡ ok sb')
    × IsValid sb'
    × (sb'.max_length ≡ 6)
    × (contents sb' ≡ contents two ++ take (min 5 (6 - 2)) (1 ∷ 2 ∷ 3 ∷ 4 ∷ 5 ∷ []))
append_bytes-contents_example =
    append_bytes-contents two two-IsValid (1 ∷ 2 ∷ 3 ∷ 4 ∷ 5 ∷ []) 5 (omega arith)

append_asciiz-contents_example :
    (sb' : Strbuf) × (append_asciiz two (99 ∷ 100 ∷ 0 ∷ 7 ∷ []) ≡ ok sb')
    × (contents sb' ≡ contents two ++ (99 ∷ 100 ∷ 0 ∷ []))
append_asciiz-contents_example =
    append_asciiz-contents two (99 ∷ 100 ∷ []) (7 ∷ []) two-IsValid
      ((λ e. omega arith), ((λ e. omega arith), tt)) (omega arith)

ascii2uint-conv_base_example :
    ascii2uint (conv_base digit_fuel 10 4096 ++ (b'd' ∷ [])) ≡ (4096, b'd' ∷ [])
ascii2uint-conv_base_example = ascii2uint-conv_base 4096 (b'd' ∷ []) (omega arith) refl

decimal_text : conv_base digit_fuel 10 4096 ≡ codes "4096"
unfolding conv_base
decimal_text = refl

-- A writer that keeps what is flushed.
abbrev keep : List ℕ → List ℕ → Result (List ℕ)
keep chars written = ok (written ++ chars)

abbrev at_mark : ℕ → PrintContext (List ℕ)
at_mark mark = record {
  zero_padded = false;
  left_adjusted = false;
  width_given = false;
  prec_given = false;
  width = 0;
  prec = 0;
  buffer = replicate 1024 0;
  buffer_mark = mark;
  write_count = 0;
  writer = [];
}

put_char-pending_example :
    (pctx' : PrintContext (List ℕ)) × (put_char keep (at_mark 2) 65 ≡ ok pctx')
    × Writer.IsValid keep pctx'
    × (pending keep pctx' ≡ pending keep (at_mark 2) ++ (u8 65 ∷ []))
    × (pctx'.writer ≡ [])
    × (pctx'.write_count ≡ 0)
put_char-pending_example =
    put_char-pending keep (at_mark 2) 65 (record { sized = refl; below = omega arith })
      (omega arith)

put_char-flush_example :
    (pctx' : PrintContext (List ℕ)) × (put_char keep (at_mark 1023) 65 ≡ ok pctx')
    × Writer.IsValid keep pctx'
    × (pending keep pctx' ≡ [])
    × (pctx'.writer ≡ pending keep (at_mark 1023))
    × (pctx'.write_count ≡ 0 + (length (pending keep (at_mark 1023)) + 1))
put_char-flush_example =
    put_char-flush keep (at_mark 1023) 65 (pending keep (at_mark 1023))
      (record { sized = refl; below = omega arith }) refl refl

-- "%d=%04X" of -42 and 255, and the number of characters.
abbrev no_text : ℕ → List ℕ
no_text addr = []

abbrev no_buffer : ℕ → Strbuf
no_buffer addr = two

formatted : Result (Option (List ℕ × ℕ)) → List ℕ × ℕ
formatted (ok (some r)) = r
formatted _ = ([], 0)

print_numbers :
    formatted (
      xprint_fd no_text no_buffer
        (λ chars w. w ++ chars)
        (at_mark 7)
        []
        (codes "%d=%04X")
        ((2 ^ 32 - 42) ∷ 255 ∷ []))
    ≡ (codes "-42=00FF", 8)
unfolding formatted xprint_fd
print_numbers = refl

print_internal-Finished_example :
    Returns Finished
      (print_internal keep no_text no_buffer (at_mark 0) (codes "%d=%04X") (1 ∷ 2 ∷ []))
print_internal-Finished_example =
    print_internal-Finished keep no_text no_buffer (at_mark 0) (codes "%d=%04X") (1 ∷ 2 ∷ [])
