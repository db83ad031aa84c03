-- ===== src/Rtl/Print.antt =====
-- The output of src/rtl/rtl_print.c: the buffered writer and the conversions. What the writer
-- does with flushed characters is an argument.
pub mod Writer
use mette.Base.{
  ℕ, ◌+◌, ◌-◌, Bool, true, false, ◌&&◌, List, [], ◌∷◌, take, set, length, replicate, ltb, leb, ◌==◌,
}
use mette.Base.{◌^◌, neg32, if◌then◌else◌, Result, ok, ◌>>=◌, u8, u32}
use mette.Rtl.Xstring.{xstrlen}
use mette.Rtl.Strbuf.{Strbuf}
use mette.Rtl.Convert.{conv_base, digit_fuel}

abbrev pub buffer_size : ℕ
buffer_size = 1024

-- `__print_context_t` without the reader of arguments. `writer` is what has been written to.
pub record PrintContext (W : Type 0) : Type 0 where
  pub zero_padded : Bool
  pub left_adjusted : Bool
  pub width_given : Bool
  pub prec_given : Bool
  pub width : ℕ
  pub prec : ℕ
  pub buffer : List ℕ
  pub buffer_mark : ℕ
  pub write_count : ℕ
  pub writer : W

module _ {W : Type 0} (flush_proc : List ℕ → W → Result W) where
  -- `put_char`. The flush procedures write `pctx->buffer_mark` characters, and the new mark is
  -- stored there only at the end.
  unfoldable pub put_char : PrintContext W → ℕ → Result (PrintContext W)
  put_char pctx ch =
      let filled = set pctx.buffer pctx.buffer_mark (u8 ch) in
      if pctx.buffer_mark + 1 == buffer_size
      then (do
        w ← flush_proc (take pctx.buffer_mark filled) pctx.writer
        ok (record pctx {
          buffer = filled;
          buffer_mark = 0;
          write_count = pctx.write_count + (pctx.buffer_mark + 1);
          writer = w;
        }))
      else ok (record pctx { buffer = filled; buffer_mark = pctx.buffer_mark + 1 })

  -- A loop of `put_char`.
  unfoldable pub put_chars : PrintContext W → List ℕ → Result (PrintContext W)
  unfolding put_char
  put_chars pctx [] = ok pctx
  put_chars pctx (ch ∷ chs) = do pctx' ← put_char pctx ch; put_chars pctx' chs

  -- `conv_text`.
  unfoldable pub conv_text : PrintContext W → List ℕ → ℕ → ℕ → Result (PrintContext W)
  unfolding put_chars
  conv_text pctx text text_length pad =
      let shown = if pctx.prec_given && ltb pctx.prec text_length then pctx.prec else text_length in
      let spaces = if pctx.width_given && ltb shown pctx.width then pctx.width - shown else 0 in
      if pctx.left_adjusted
      then (do p ← put_chars pctx (take shown text); put_chars p (replicate spaces b' '))
      else (do p ← put_chars pctx (replicate spaces pad); put_chars p (take shown text))

  abbrev pub padding_of : PrintContext W → ℕ
  padding_of pctx = if pctx.zero_padded then b'0' else b' '

  -- `conv_d`: a sign and the magnitude.
  unfoldable pub conv_d : PrintContext W → ℕ → Result (PrintContext W)
  unfolding conv_text conv_base
  conv_d pctx value =
      if ltb value (2 ^ 31)
      then conv_text pctx (conv_base digit_fuel 10 value) (length (conv_base digit_fuel 10 value))
          (padding_of pctx)
      else conv_text pctx (b'-' ∷ conv_base digit_fuel 10 (neg32 value))
          (length (conv_base digit_fuel 10 (neg32 value)) + 1) b' '

  -- `conv_uox`.
  unfoldable pub conv_uox : PrintContext W → ℕ → ℕ → Result (PrintContext W)
  unfolding conv_text conv_base
  conv_uox pctx base value =
      let digits = conv_base digit_fuel base value in
      conv_text pctx digits (length digits) (padding_of pctx)

  -- `conv_strbuf` and `conv_asciiz`.
  unfoldable pub conv_strbuf : PrintContext W → Strbuf → Result (PrintContext W)
  unfolding conv_text
  conv_strbuf pctx sb = conv_text pctx sb.bytes sb.length b' '

  unfoldable pub conv_asciiz : PrintContext W → List ℕ → Result (PrintContext W)
  unfolding conv_text xstrlen
  conv_asciiz pctx text = do n ← xstrlen text; conv_text pctx text n b' '
