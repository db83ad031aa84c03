-- ===== src/Rtl/Print/Writer.antt =====
-- The buffered characters of src/rtl/rtl_print.c.
use mette.Base.{
  ℕ, suc, ◌+◌, ◌<◌, ◌≡◌, refl, arith, List, [], ◌∷◌, ◌++◌, length, take, set, take-set_next,
  take-set, length-take, u8,
}
use mette.Base.{Result, ok, ne→==-false, length-set, ap, ◌∙◌}
use mette.Rtl.Print.{PrintContext, buffer_size, put_char}

module _ {W : Type 0} (flush_proc : List ℕ → W → Result W) where
  pub record IsValid (pctx : PrintContext W) : Type 0 where
    pub sized : length pctx.buffer ≡ buffer_size
    pub below : pctx.buffer_mark < buffer_size

  -- The characters that are not flushed yet.
  abbrev pub pending : PrintContext W → List ℕ
  pending pctx = take pctx.buffer_mark pctx.buffer

  -- While the buffer has room for more than one character, `put_char` adds the character to
  -- those pending, writes nothing, and leaves the state valid.
  pub put_char-pending :
      (pctx : PrintContext W) (ch : ℕ)
      → IsValid pctx
      → pctx.buffer_mark + 1 < buffer_size
      → (pctx' : PrintContext W) × (put_char flush_proc pctx ch ≡ ok pctx')
        × IsValid pctx'
        × (pending pctx' ≡ pending pctx ++ (u8 ch ∷ []))
        × (pctx'.writer ≡ pctx.writer)
        × (pctx'.write_count ≡ pctx.write_count)
  unfolding put_char
  put_char-pending pctx ch v room =
      let mark = pctx.buffer_mark in
      let sized = v.sized in
      let kept = length-set pctx.buffer mark (u8 ch) in
      let next : mark + 1 ≡ suc mark = omega arith in
      (
        record pctx { buffer = set pctx.buffer mark (u8 ch); buffer_mark = mark + 1 },
        rw (ne→==-false (mark + 1) buffer_size (omega arith)) refl,
        record { sized = kept ∙ sized; below = room },
        ap (λ n. take n (set pctx.buffer mark (u8 ch))) next
            ∙ take-set_next pctx.buffer mark (u8 ch) (omega arith),
        refl,
        refl,
      )

  -- With room for one character only, `put_char` flushes exactly the characters that were
  -- pending before, without the new one, counts one more than that as written, and leaves
  -- nothing pending.
  pub put_char-flush :
      (pctx : PrintContext W) (ch : ℕ) (w : W)
      → IsValid pctx
      → pctx.buffer_mark + 1 ≡ buffer_size
      → flush_proc (pending pctx) pctx.writer ≡ ok w
      → (pctx' : PrintContext W) × (put_char flush_proc pctx ch ≡ ok pctx')
        × IsValid pctx'
        × (pending pctx' ≡ [])
        × (pctx'.writer ≡ w)
        × (pctx'.write_count ≡ pctx.write_count + (length (pending pctx) + 1))
  unfolding put_char
  put_char-flush pctx ch w v full flushed =
      let mark = pctx.buffer_mark in
      let sized = v.sized in
      let kept = length-set pctx.buffer mark (u8 ch) in
      let counted : pctx.write_count + (mark + 1) ≡ pctx.write_count + (length (pending pctx) + 1) =
        omega (arith, length-take mark pctx.buffer) in
      (
        record pctx {
          buffer = set pctx.buffer mark (u8 ch);
          buffer_mark = 0;
          write_count = pctx.write_count + (mark + 1);
          writer = w;
        },
        rw full (rw (take-set pctx.buffer mark (u8 ch), flushed) refl),
        record { sized = kept ∙ sized; below = omega arith },
        refl,
        refl,
        counted,
      )
