-- ===== src/Rtl/Strbuf.antt =====
-- src/rtl/rtl_strbuf.c: byte strings with a fixed room. What the allocator answers is an
-- argument: whether it grants the block, and what fresh bytes hold.
pub mod Append
use mette.Base.{ℕ, zero, suc, ◌+◌, ◌-◌, ◌^◌, Bool, List, [], ◌∷◌, ◌++◌, length, take, min, u16, ltb}
use mette.Base.{if◌then◌else◌, Result, ok, fault, bad_access, ◌>>=◌}
use mette.Rtl.Xstring.{xmemcpy, xstrlen}

-- `rtl_strbuf_t` with the bytes behind it.
pub record Strbuf : Type 0 where
  pub length : ℕ
  pub max_length : ℕ
  pub bytes : List ℕ

unfoldable pub fresh_bytes : (ℕ → ℕ) → ℕ → ℕ → List ℕ
fresh_bytes junk i zero = []
fresh_bytes junk i (suc n) = junk i ∷ fresh_bytes junk (suc i) n

-- `rtl_strbuf_alloc`. The answer of `rtl_alloc` is not checked.
unfoldable pub strbuf_alloc : Bool → (ℕ → ℕ) → ℕ → Result Strbuf
unfolding fresh_bytes
strbuf_alloc granted junk size =
    let room = if ltb 0xFFFF size then 0xFFFF else size in
    if granted
    then ok (record { length = 0; max_length = u16 room; bytes = fresh_bytes junk 0 room })
    else fault bad_access

-- `rtl_strbuf_set_length`.
unfoldable pub set_length : Strbuf → ℕ → Strbuf
set_length sb n = record sb { length = if ltb sb.max_length n then sb.max_length else n }

-- `rtl_strbuf_resize`, which only grows. `rtl_realloc` keeps the bytes.
unfoldable pub resize : Bool → (ℕ → ℕ) → Strbuf → ℕ → Result Strbuf
unfolding fresh_bytes
resize granted junk sb size =
    if ltb sb.max_length size
    then if granted
      then ok (record {
        length = if ltb size sb.length then size else sb.length;
        max_length = size;
        bytes = sb.bytes ++ fresh_bytes junk 0 (size - sb.max_length);
      })
      else fault bad_access
    else ok sb

-- `min(count, max_length - length)` in `int`, as a `uint16_t`.
abbrev pub to_copy : Strbuf → ℕ → ℕ
to_copy sb count =
    if ltb sb.max_length sb.length
    then u16 (2 ^ 16 + sb.max_length - sb.length)
    else min count (sb.max_length - sb.length)

-- `rtl_strbuf_append_bytes`.
unfoldable pub append_bytes : Strbuf → List ℕ → ℕ → Result Strbuf
unfolding xmemcpy
append_bytes sb src count = do
  block ← xmemcpy sb.bytes sb.length src (to_copy sb count)
  ok (record sb { length = u16 (sb.length + to_copy sb count); bytes = block })

-- `rtl_strbuf_append`, `rtl_strbuf_append_char` and `rtl_strbuf_append_asciiz`.
unfoldable pub append : Strbuf → Strbuf → Result Strbuf
unfolding append_bytes
append sb src = append_bytes sb src.bytes src.length

unfoldable pub append_char : Strbuf → ℕ → Result Strbuf
unfolding append_bytes
append_char sb ch = append_bytes sb (ch ∷ []) 1

unfoldable pub append_asciiz : Strbuf → List ℕ → Result Strbuf
unfolding append_bytes xstrlen
append_asciiz sb asciiz = do n ← xstrlen asciiz; append_bytes sb asciiz (u16 n)

-- `rtl_strbuf_to_asciiz`: the bytes of the static buffer up to the terminator that it writes.
unfoldable pub to_asciiz : Strbuf → List ℕ
to_asciiz sb = take sb.length sb.bytes ++ (0 ∷ [])
