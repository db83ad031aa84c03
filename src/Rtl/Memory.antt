-- ===== src/Rtl/Memory.antt =====
-- The allocator, src/rtl/rtl_memory.c, without `rtl_realloc`. Addresses and sizes are 32 bits wide; a slot is 8 bytes.
pub mod Chain
pub mod Spec
pub mod State
pub mod Walk
pub mod Links
pub mod Take
pub mod Use
pub mod Align
pub mod Alloc
pub mod Grow
pub mod Break
pub mod Total
pub mod Place
pub mod Merge
pub mod Upward
pub mod Free
pub mod RoundTrip
pub mod Overlap
use mette.Base.{
  ℕ, zero, suc, ◌+◌, ◌-◌, ◌*◌, ◌/◌, ◌^◌, Bool, true, false, ◌&&◌, not, ltb, leb, ◌==◌,
  if◌then◌else◌, u32,
}
use mette.Rtl.Arena.{
  Heap, stuck, done, Cmd, pure, ◌>>=◌, ◌>>◌, load, store, next_slot, next_free, set_next_slot,
  set_next_free, get_free_anchor, set_free_anchor, align,
}

abbrev pub page_size : ℕ
page_size = 4096

abbrev pub unit_size : ℕ
unit_size = 8

-- `slot + units`, for a pointer to a slot.
abbrev pub plus_units : ℕ → ℕ → ℕ
plus_units slot units = u32 (slot + units * unit_size)

-- The size in units of the slot for `size` bytes.
unfoldable pub units_of : ℕ → ℕ
unfolding align
units_of size = u32 (align size unit_size / unit_size + 1)

-- The rounds for a walk along the free list: more than there are slots in the address space.
unfoldable pub walk_fuel : ℕ
walk_fuel = 2 ^ 29

-- The rounds for the loop of `rtl_alloc`: more than there are pages below the limit of a process.
unfoldable pub grow_fuel : ℕ
grow_fuel = 2 ^ 20

-- How a walk along the free list ends: a slot that is behind the end of the address space, none
-- that fits, or one that fits; each with the slot before it, or 0.
pub data Search : Type 0 where
  overflow : Search
  exhausted : ℕ → Search
  fits : ℕ → ℕ → Search

-- The inner loop of `rtl_alloc`, up to the slot that it uses.
unfoldable pub search_free : ℕ → ℕ → (prev curr : ℕ) → Cmd Search
search_free zero units prev curr = λ _. stuck
search_free (suc fuel) units prev curr =
    if curr == 0
    then pure (exhausted prev)
    else if leb (plus_units curr units) curr
    then pure overflow
    else do
      end ← next_slot curr
      if ltb end (plus_units curr units)
          then (do next ← next_free curr; search_free fuel units curr next)
          else pure (fits prev curr)

-- The free slot is cut in two: what is left over follows it in the free list.
unfoldable pub split : (curr new_slot : ℕ) → Cmd (Unit {0})
split curr new_slot = do
  end ← next_slot curr
  set_next_slot new_slot end
  next ← next_free curr
  set_next_free new_slot next
  set_next_slot curr new_slot
  set_next_free curr new_slot

-- `next` becomes the slot behind `prev` in the free list, or its first, without `prev`.
unfoldable pub set_link : (prev next : ℕ) → Cmd (Unit {0})
set_link prev next = if prev == 0 then set_free_anchor next else set_next_free prev next

unfoldable pub unlink : (prev curr : ℕ) → Cmd ℕ
unlink prev curr = do
  next ← next_free curr
  set_link prev next
  set_next_free curr 0
  pure (plus_units curr 1)

-- The rest of the inner loop of `rtl_alloc`.
unfoldable pub use_slot : ℕ → (prev curr : ℕ) → Cmd ℕ
use_slot units prev curr = do
  end ← next_slot curr
  if ltb (plus_units (plus_units curr units) 1) end
      then (do split curr (plus_units curr units); unlink prev curr)
      else unlink prev curr

-- The end of `xmem_grow`.
unfoldable pub append_arena : (last_free new_slot new_arena_brk : ℕ) → Cmd Bool
append_arena last_free new_slot new_arena_brk =
    if last_free == 0
    then (do
      set_next_slot new_slot new_arena_brk
      set_next_free new_slot 0
      set_free_anchor new_slot
      pure true)
    else (do set_next_slot last_free new_slot; pure true)

-- `rtl_free`, the walk to the place of the slot `this`: the free slots before and behind it.
unfoldable pub find_place : ℕ → (this prev next : ℕ) → Cmd (ℕ × ℕ)
find_place zero this prev next = λ _. stuck
find_place (suc fuel) this prev next =
    if not (next == 0) && ltb next this
    then (do after ← next_free next; find_place fuel this next after)
    else pure (prev, next)

-- The slot joins the free list behind `prev`, and the slot `prev` if they touch.
unfoldable pub merge_up : (prev this : ℕ) → Cmd ℕ
merge_up prev this = if prev == 0 then (do set_free_anchor this; pure this) else do
  set_next_free prev this
  prev_end ← next_slot prev
  if prev_end == this
      then (do end ← next_slot this; set_next_slot prev end; pure prev)
      else pure this

-- The slot takes in the free slot `next` if they touch.
unfoldable pub take_in : (this next : ℕ) → Cmd (Unit {0})
take_in this next = do
  end ← next_slot this
  if end == next
      then (do
        next_end ← next_slot next
        set_next_slot this next_end
        after ← next_free next
        set_next_free this after)
      else pure tt

-- The slot is followed by `next` in the free list.
unfoldable pub merge_down : (this next : ℕ) → Cmd (Unit {0})
merge_down this next = do set_next_free this next; if next == 0 then pure tt else take_in this next

unfoldable pub release : (this : ℕ) → Cmd (Unit {0})
release this = do
  anchor ← get_free_anchor
  (prev, next) ← find_place walk_fuel this 0 anchor
  joined ← merge_up prev this
  merge_down joined next

unfoldable pub rtl_free : ℕ → Cmd (Unit {0})
rtl_free ptr = if ptr == 0 then pure tt else release (u32 (ptr + 2 ^ 32 - unit_size))

-- `sys_brk current request` is the program break after the call, which the call returns.
module _ (sys_brk : ℕ → ℕ → ℕ) where
  -- The arena starts at the page behind the program break.
  unfoldable pub start_arena : Heap → Heap
  start_arena h =
      if h.arena_brk == 0
      then (let base = align (sys_brk h.program_break 0) page_size in
          record h {
            program_break = sys_brk h.program_break 0;
            arena_brk = base;
            first_slot = base;
          })
      else h

  unfoldable pub grow_by : ℕ → ℕ → Cmd Bool
  grow_by last_free new_brk h =
      let new_arena_brk = sys_brk h.program_break new_brk in
      let asked = record h { program_break = new_arena_brk } in
      if h.arena_brk == new_arena_brk
      then done false asked
      else if not (new_brk == new_arena_brk)
      then done false asked
      else append_arena last_free h.arena_brk new_arena_brk
          (record asked { arena_brk = new_arena_brk })

  unfoldable pub xmem_grow : ℕ → ℕ → Cmd Bool
  xmem_grow units last_free h =
      let started = start_arena h in
      grow_by last_free (u32 (started.arena_brk + align (u32 (units * unit_size)) page_size))
        started

  -- What `rtl_alloc` does at the end of the inner loop; `again` is the next round of the outer one.
  unfoldable pub after_search : Cmd ℕ → ℕ → Search → Cmd ℕ
  after_search again units overflow = pure 0
  after_search again units (fits prev curr) = use_slot units prev curr
  after_search again units (exhausted prev) = do
    grown ← xmem_grow units prev
    if grown then again else pure 0

  unfoldable pub alloc_loop : ℕ → ℕ → Cmd ℕ
  alloc_loop zero units = λ _. stuck
  alloc_loop (suc fuel) units = do
    anchor ← get_free_anchor
    found ← search_free walk_fuel units 0 anchor
    after_search (alloc_loop fuel units) units found

  unfoldable pub rtl_alloc : ℕ → Cmd ℕ
  rtl_alloc size =
      if ltb 0xFFFFFF (units_of size) then pure 0 else alloc_loop grow_fuel (units_of size)
