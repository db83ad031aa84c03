-- ===== src/Rtl/Realloc.antt =====
-- `rtl_realloc` of src/rtl/rtl_memory.c.
pub mod Absorb
pub mod Copy
pub mod Move
pub mod Shrink
mod Tests
use mette.Base.{
  ℕ, zero, suc, ◌+◌, ◌-◌, ◌*◌, ◌/◌, ◌^◌, ◌&&◌, ◌||◌, not, ltb, leb, ◌==◌, if◌then◌else◌, u32,
}
use mette.Rtl.Arena.{
  stuck, done, Cmd, pure, ◌>>=◌, ◌>>◌, load, store, next_slot, next_free, set_next_slot,
  get_free_anchor,
}
use mette.Rtl.Memory.{unit_size, plus_units, units_of, walk_fuel, set_link, rtl_alloc, rtl_free}

-- `rtl_realloc`, the walk that looks for a free slot behind `this`.
unfoldable pub absorb : ℕ → (this prev next : ℕ) → Cmd (Unit {0})
absorb zero this prev next = λ _. stuck
absorb (suc fuel) this prev next =
    if not (next == 0) && ltb next this
    then (do
      end ← next_slot this
      (if end == next
          then (do
            next_end ← next_slot next
            set_next_slot this next_end
            after ← next_free next
            set_link prev after)
          else pure tt)
      after ← next_free next
      absorb fuel this next after)
    else pure tt

-- `xmemcpy` of a number of whole words.
unfoldable pub copy_words : ℕ → (dest src : ℕ) → Cmd (Unit {0})
copy_words zero dest src = pure tt
copy_words (suc count) dest src = do
  word ← load src
  store dest word
  copy_words count (dest + 4) (src + 4)

module _ (sys_brk : ℕ → ℕ → ℕ) where
  -- `rtl_realloc` where the slot is large enough. The C code frees the leftover by the address of
  -- its slot.
  unfoldable pub shrink : (this new ptr : ℕ) → Cmd ℕ
  shrink this new ptr = do
    end ← next_slot this
    if leb (plus_units new 1) end
        then (do set_next_slot new end; set_next_slot this new; rtl_free new; pure ptr)
        else pure ptr

  unfoldable pub move : ℕ → (old_count ptr : ℕ) → Cmd ℕ
  move size old_count ptr = do
    new ← rtl_alloc sys_brk size
    if new == 0 then pure 0 else do copy_words (old_count / 4) new ptr; rtl_free ptr; pure new

  -- The end of `rtl_realloc`.
  unfoldable pub place_data : (size this ptr units old_count : ℕ) → Cmd ℕ
  place_data size this ptr units old_count = do
    end ← next_slot this
    if leb (plus_units this units) end
        then shrink this (plus_units this units) ptr
        else move size old_count ptr

  unfoldable pub resize_slot : (size this ptr units : ℕ) → Cmd ℕ
  resize_slot size this ptr units = do
    old_end ← next_slot this
    if ltb 0xFFFFFF units || leb (plus_units this units) this then pure 0 else do
      anchor ← get_free_anchor
      absorb walk_fuel this 0 anchor
      place_data size this ptr units (u32 (old_end + 2 ^ 32 - this) / unit_size * unit_size)

  unfoldable pub rtl_realloc : ℕ → ℕ → Cmd ℕ
  rtl_realloc ptr size =
      if ptr == 0
      then rtl_alloc sys_brk size
      else if size == 0
      then (do rtl_free ptr; pure 0)
      else resize_slot size (u32 (ptr + 2 ^ 32 - unit_size)) ptr (units_of size)
