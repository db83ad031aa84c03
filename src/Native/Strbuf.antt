-- ===== src/Native/Strbuf.antt =====
-- The string buffers of src/rtl/rtl_strbuf.c and the block operations of src/sysdep/xstring.c
-- where the native procedures use them: at an address of the machine's memory.
use mette.Base.{ℕ, zero, suc, List, [], ◌∷◌, ◌++◌, ltb, if◌then◌else◌, add32, u16, min}
use mette.Vm.Memory.{Target, load8, load16, store8, store16}
use mette.Native.Act.{
  Act, Host, pure, ◌>>=◌, ◌>>◌, call, load, store, rtl_alloc, rtl_realloc, rtl_free,
}

-- `xmemset` and `xmemcpy`, forwards and a byte at a time.
unfoldable pub memset : ℕ → ℕ → ℕ → Act (Unit {0})
memset dest c zero = pure tt
memset dest c (suc count) = do store (λ m. store8 m dest c); memset (add32 dest 1) c count

unfoldable pub memcpy : ℕ → ℕ → ℕ → Act (Unit {0})
memcpy dest src zero = pure tt
memcpy dest src (suc count) = do
  c ← load (λ m. load8 m src)
  store (λ m. store8 m dest c)
  memcpy (add32 dest 1) (add32 src 1) count

-- The bytes from an address on, as `xmemcpy` to another buffer reads them.
unfoldable pub bytes_at : ℕ → ℕ → Act (List ℕ)
bytes_at src zero = pure []
bytes_at src (suc count) = do
  c ← load (λ m. load8 m src)
  rest ← bytes_at (add32 src 1) count
  pure (c ∷ rest)

-- `rtl_strbuf_get_buffer`: `STRBUF_DATA`, behind the two half words of the header.
abbrev pub get_buffer : ℕ → ℕ
get_buffer sb = add32 sb 4

module _ (t : Target) where
  -- `rtl_strbuf_get_length` and `rtl_strbuf_get_size`.
  unfoldable pub get_length : ℕ → Act ℕ
  get_length sb = load (λ m. load16 t m sb)

  unfoldable pub get_size : ℕ → Act ℕ
  get_size sb = load (λ m. load16 t m (add32 sb 2))

  unfoldable pub put_length : ℕ → ℕ → Act (Unit {0})
  put_length sb length = store (λ m. store16 t m sb length)

  unfoldable pub put_size : ℕ → ℕ → Act (Unit {0})
  put_size sb size = store (λ m. store16 t m (add32 sb 2) size)

  -- `rtl_strbuf_set_length`, with the conversion of its argument to `uint16_t`.
  unfoldable pub set_length : ℕ → ℕ → Act (Unit {0})
  unfolding get_size put_length
  set_length sb length = do max_length ← get_size sb; put_length sb (min max_length (u16 length))

  -- `rtl_strbuf_to_asciiz`: the bytes of the static buffer up to the terminator that it writes.
  unfoldable pub to_asciiz : ℕ → Act (List ℕ)
  unfolding get_length bytes_at
  to_asciiz sb = do
    length ← get_length sb
    bytes ← bytes_at (get_buffer sb) length
    pure (bytes ++ (0 ∷ []))

  module _ (host : Host) where
    -- `rtl_strbuf_alloc`, and `rtl_strbuf_free`. The answer of the allocator is not checked.
    unfoldable pub alloc : ℕ → Act ℕ
    unfolding put_length put_size
    alloc size =
        let room = if ltb 0xFFFF size then 0xFFFF else size in
        (do sb ← call host (rtl_alloc (add32 4 room)); put_length sb 0; put_size sb room; pure sb)

    unfoldable pub free : ℕ → Act (Unit {0})
    free sb = do _ ← call host (rtl_free sb); pure tt

    -- The branch of `rtl_strbuf_resize` that grows.
    unfoldable pub grow : ℕ → ℕ → Act ℕ
    unfolding get_length put_length put_size
    grow sb size = do
      sb' ← call host (rtl_realloc sb (add32 4 size))
      length ← get_length sb'
      if ltb size length then put_length sb' size else pure tt
      put_size sb' size
      pure sb'

    -- `rtl_strbuf_resize`, with the conversion of its argument to `uint16_t`.
    unfoldable pub resize : ℕ → ℕ → Act ℕ
    unfolding get_size grow
    resize sb size = do
      max_length ← get_size sb
      if ltb max_length (u16 size) then grow sb (u16 size) else pure sb
