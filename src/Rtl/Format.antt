-- ===== src/Rtl/Format.antt =====
-- `__print_internal` of src/rtl/rtl_print.c: the loop over the format. A format is the list of
-- its characters before the terminator, and the arguments are the list that `nextarg_proc` gives;
-- `asciiz_at` and `strbuf_at` are what stands in memory where an argument points.
pub mod Fuel
use mette.Base.{
  ℕ, zero, suc, Bool, true, false, List, [], ◌∷◌, Option, none, some, ◌==◌, if◌then◌else◌,
}
use mette.Base.{Result, ok, fault, bad_access, ◌>>=◌, length, take, ◌+◌, ◌||◌}
use mette.Rtl.Strbuf.{Strbuf, append_bytes}
use mette.Rtl.Convert.{xisdigit, ascii2uint}
use mette.Rtl.Print.{PrintContext, put_char, conv_d, conv_uox, conv_strbuf, conv_asciiz}

-- The flags and fields in front of the conversion character.
unfoldable pub read_zero_padded : {W : Type 0} → PrintContext W → List ℕ → List ℕ × PrintContext W
read_zero_padded pctx [] = ([], pctx)
read_zero_padded pctx (ch ∷ cursor) =
    if ch == b'0' then (cursor, record pctx { zero_padded = true }) else (ch ∷ cursor, pctx)

unfoldable pub read_left_adjusted : {W : Type 0} → PrintContext W → List ℕ → List ℕ × PrintContext W
read_left_adjusted pctx [] = ([], pctx)
read_left_adjusted pctx (ch ∷ cursor) =
    if ch == b'-' then (cursor, record pctx { left_adjusted = true }) else (ch ∷ cursor, pctx)

unfoldable pub read_width : {W : Type 0} → PrintContext W → List ℕ → List ℕ × PrintContext W
unfolding ascii2uint
read_width pctx [] = ([], pctx)
read_width pctx (ch ∷ cursor) =
    let (value, rest) = ascii2uint (ch ∷ cursor) in
    if xisdigit ch
    then (rest, record pctx { width_given = true; width = value })
    else (ch ∷ cursor, pctx)

unfoldable pub read_prec : {W : Type 0} → PrintContext W → List ℕ → List ℕ × PrintContext W
unfolding ascii2uint
read_prec pctx [] = ([], pctx)
read_prec pctx (ch ∷ cursor) =
    let (value, rest) = ascii2uint cursor in
    if ch == b'.'
    then (rest, record pctx { prec_given = true; prec = value })
    else (ch ∷ cursor, pctx)

module _ {W : Type 0} (flush_proc : List ℕ → W → Result W) (asciiz_at : ℕ → List ℕ)
    (strbuf_at : ℕ → Strbuf) where
  -- The first loop: up to the terminator, or behind the next percent sign.
  unfoldable pub put_literal : PrintContext W → List ℕ → Result (Option (List ℕ) × PrintContext W)
  unfolding put_char
  put_literal pctx [] = ok (none, pctx)
  put_literal pctx (ch ∷ cursor) =
      let cleared = record pctx {
        zero_padded = false;
        left_adjusted = false;
        width_given = false;
        prec_given = false;
      } in
      let rest = put_char flush_proc pctx ch >>= λ p. put_literal p cursor in
      if ch == b'%' then ok (some cursor, cleared) else rest

  -- The switch on the conversion character.
  unfoldable pub convert : PrintContext W → ℕ → ℕ → Result (PrintContext W)
  unfolding put_char conv_d conv_uox conv_strbuf conv_asciiz
  convert pctx ch arg =
      if ch == b'd'
      then conv_d flush_proc pctx arg
      else if ch == b'u'
      then conv_uox flush_proc pctx 10 arg
      else if ch == b'o'
      then conv_uox flush_proc pctx 18 arg
      else if ch == b'x' || ch == b'X'
      then conv_uox flush_proc pctx 16 arg
      else if ch == b'c'
      then put_char flush_proc pctx arg
      else if ch == b'b'
      then conv_strbuf flush_proc pctx (strbuf_at arg)
      else if ch == b's'
      then conv_asciiz flush_proc pctx (asciiz_at arg)
      else ok pctx

  -- From behind the fields on: the argument, the conversion, and the step of the cursor, which
  -- at the terminator leaves the format.
  unfoldable pub put_argument :
      PrintContext W → List ℕ → List ℕ → Result (List ℕ × List ℕ × PrintContext W)
  unfolding convert
  put_argument pctx cursor [] = fault bad_access
  put_argument pctx [] (arg ∷ args) = fault bad_access
  put_argument pctx (ch ∷ cursor) (arg ∷ args) = do p ← convert pctx ch arg; ok (cursor, args, p)

  -- What follows a percent sign that is not doubled.
  unfoldable pub put_conversion :
      PrintContext W → List ℕ → List ℕ → Result (List ℕ × List ℕ × PrintContext W)
  unfolding read_zero_padded read_left_adjusted read_width read_prec put_argument
  put_conversion pctx cursor args =
      let z = read_zero_padded pctx cursor in
      let l = read_left_adjusted z.1 z.0 in
      let w = read_width l.1 l.0 in let p = read_prec w.1 w.0 in put_argument p.1 p.0 args

  -- What follows any percent sign but one at the end.
  unfoldable pub put_percent :
      PrintContext W → ℕ → List ℕ → List ℕ → Result (List ℕ × List ℕ × PrintContext W)
  unfolding put_char put_conversion
  put_percent pctx ch cursor args =
      if ch == b'%'
      then (put_char flush_proc pctx ch >>= λ p. ok (cursor, args, p))
      else put_conversion pctx (ch ∷ cursor) args

  -- The outer loop; `none` if the fuel does not suffice.
  unfoldable pub print_loop :
      ℕ → PrintContext W → List ℕ → List ℕ → Result (Option (PrintContext W))
  unfolding put_literal put_percent
  print_loop zero pctx cursor args = ok none
  print_loop (suc fuel) pctx cursor args = put_literal pctx cursor >>= λ r. elim r.0 [
    | none ↦ ok (some r.1)
    | some rest ↦ elim rest [
      | [] ↦ ok (some r.1)
      | ch ∷ behind ↦ put_percent r.1 ch behind args >>= λ q. print_loop fuel q.2 q.0 q.1
    ]
  ]

  -- The end of `__print_internal`: what is still pending is flushed.
  unfoldable pub flush_pending : PrintContext W → Result (PrintContext W)
  flush_pending p =
      if p.buffer_mark == 0
      then ok p
      else (flush_proc (take p.buffer_mark p.buffer) p.writer >>= λ w.
          ok
            (record p { write_count = p.write_count + p.buffer_mark; buffer_mark = 0; writer = w }))

  -- `__print_internal`. The fuel is one more than the length of the format.
  unfoldable pub print_internal :
      PrintContext W → List ℕ → List ℕ → Result (Option (PrintContext W))
  unfolding print_loop flush_pending
  print_internal pctx format args = print_loop (suc (length format)) pctx format args >>= λ r.
      elim r [ none ↦ ok none | some p ↦ flush_pending p >>= λ q. ok (some q) ]

-- The context that the entry points set up. The flags, the fields and the buffer are not
-- initialised: `old` is what stood there.
abbrev pub opened : {W : Type 0} → PrintContext W → W → PrintContext W
opened old writer = record old { buffer_mark = 0; write_count = 0; writer = writer }

-- `flush_sb`.
abbrev pub flush_sb : List ℕ → Strbuf → Result Strbuf
flush_sb chars sb = append_bytes sb chars (length chars)

module _ (asciiz_at : ℕ → List ℕ) (strbuf_at : ℕ → Strbuf) where
  -- `rtl_xprint_sb`: the buffer, and its length as the result.
  unfoldable pub xprint_sb :
      PrintContext Strbuf → Strbuf → List ℕ → List ℕ → Result (Option (Strbuf × ℕ))
  unfolding print_internal append_bytes
  xprint_sb old sb format args =
      print_internal flush_sb asciiz_at strbuf_at (opened old sb) format args >>= λ r. elim r [
        | none ↦ ok none
        | some p ↦ ok (some (p.writer, p.writer.length))
      ]

  -- `rtl_xprint_fd` for a file descriptor with the given `sys_write`: what was written to, and
  -- the number of characters.
  unfoldable pub xprint_fd :
      {W : Type 0}
      → (List ℕ → W → W)
      → PrintContext W
      → W
      → List ℕ
      → List ℕ
      → Result (Option (W × ℕ))
  unfolding print_internal
  xprint_fd sys_write old fd format args =
      print_internal (λ chars w. ok (sys_write chars w)) asciiz_at strbuf_at (opened old fd) format
        args
      >>= λ r. elim r [ none ↦ ok none | some p ↦ ok (some (p.writer, p.write_count)) ]
