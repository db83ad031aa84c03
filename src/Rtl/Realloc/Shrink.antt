-- ===== src/Rtl/Realloc/Shrink.antt =====
-- `rtl_realloc` to a size for which the slot is large enough.
use mette.Base.{
  ℕ, suc, ◌+◌, ◌-◌, ◌*◌, ◌/◌, ◌^◌, ◌≤◌, ◌<◌, ◌≡◌, refl, ◌∙◌, arith, [], ne→==-false, le→leb,
  lt→leb-false, u32,
}
use mette.Rtl.Arena.{Heap, done, ◌>>=◌, ◌>>◌, update, set_next_slot, pure}
use mette.Rtl.Memory.{
  units_of, plus_units, walk_fuel, find_place, merge_up, merge_down, release, rtl_free,
}
use mette.Rtl.Memory.State.{limit, Ends, IsHeap, load_lem, store_lem, plus_units_lem}
use mette.Rtl.Memory.Chain.{Slots}
use mette.Rtl.Memory.Links.{update_other, update_self}
use mette.Rtl.Memory.Align.{units_of-bounds}
use mette.Rtl.Memory.Free.{InUse}
use mette.Rtl.Realloc.{shrink, place_data, rtl_realloc}
use mette.Rtl.Realloc.Absorb.{rtl_realloc-place_data}

place_data-shrink :
    (sys_brk : ℕ → ℕ → ℕ) (h : Heap) (xs : Slots) (a e size units count : ℕ)
    → IsHeap h xs
    → InUse h xs a e
    → units ≤ 0xFFFFFF
    → a + units * 8 ≤ e
    → place_data sys_brk size a (a + 8) units count h ≡ shrink sys_brk a (a + units * 8) (a + 8) h
unfolding place_data
place_data-shrink sys_brk h xs a e size units count is use_ few large =
    let low = use_.low in
    let top = use_.top in
    let wide = use_.wide in
    let within = is.within in
    let end = load_lem a h low (omega arith) in
    let sum = plus_units_lem a units (omega arith) few in
    rw (end, ◌>>=◌, use_.slot, sum, le→leb (a + units * 8) e large) refl

module _ (sys_brk : ℕ → ℕ → ℕ) (h : Heap) (xs : Slots) (a e size : ℕ) (is : IsHeap h xs)
    (use_ : InUse h xs a e) (pos : 0 < size) (few : units_of size ≤ 0xFFFFFF)
    (large : a + units_of size * 8 ≤ e) where
  -- Where the slot has as many units as the new size wants, nothing changes.
  pub rtl_realloc-kept :
      e < a + units_of size * 8 + 8 → rtl_realloc sys_brk (a + 8) size h ≡ done (a + 8) h
  unfolding shrink
  rtl_realloc-kept tight =
      let low = use_.low in
      let top = use_.top in
      let wide = use_.wide in
      let within = is.within in
      let new = a + units_of size * 8 in
      let end = load_lem a h low (omega arith) in
      let sum = plus_units_lem new 1 (omega arith) (omega arith) in
      rw
        (
          rtl_realloc-place_data sys_brk h xs a e size is use_ pos few,
          place_data-shrink sys_brk h xs a e size (units_of size) (u32 (e + 2 ^ 32 - a) / 8 * 8) is
              use_ few large,
        )
        (rw (end, ◌>>=◌, use_.slot, sum, lt→leb-false (new + 8) e tight) refl)

walk_fuel-suc : walk_fuel ≡ suc (2 ^ 29 - 1)
unfolding walk_fuel
walk_fuel-suc = refl

merge_down-end :
    (g : Heap) (b : ℕ)
    → g.first_slot ≤ b
    → b + 8 ≤ g.program_break
    → merge_down b 0 g ≡ done tt (record g { words = update g.words (b + 4) 0 })
unfolding merge_down
merge_down-end g b low top = rw (store_lem (b + 4) 0 g (omega arith) (omega arith), ◌>>=◌) refl

-- `rtl_free` where the free list is empty.
release-only :
    (h : Heap) (b : ℕ)
    → h.free_anchor ≡ 0
    → h.first_slot ≤ b
    → b + 8 ≤ h.program_break
    → release b h ≡ done tt (record h { free_anchor = b; words = update h.words (b + 4) 0 })
unfolding release find_place merge_up
release-only h b empty low top =
    rw (empty, walk_fuel-suc) (merge_down-end (record h { free_anchor = b }) b low top)

rtl_free-only :
    (h : Heap) (ptr : ℕ)
    → h.free_anchor ≡ 0
    → h.first_slot + 8 ≤ ptr
    → 0 < ptr
    → ptr ≤ h.program_break
    → ptr ≤ limit
    → rtl_free ptr h
      ≡ done tt (record h { free_anchor = ptr - 8; words = update h.words (ptr - 8 + 4) 0 })
unfolding rtl_free
rtl_free-only h ptr empty low pos top within =
    let this : u32 (ptr + 2 ^ 32 - 8) ≡ ptr - 8 = omega arith in
    rw (ne→==-false ptr 0 (omega arith), this)
      (release-only h (ptr - 8) empty (omega arith) (omega arith))

shrink-split :
    (sys_brk : ℕ → ℕ → ℕ) (h : Heap) (a new ptr e : ℕ)
    → h.first_slot ≤ a
    → a + 4 ≤ h.program_break
    → h.words a ≡ e
    → plus_units new 1 ≡ new + 8
    → new + 8 ≤ e
    → shrink sys_brk a new ptr h
      ≡ (do set_next_slot new e; set_next_slot a new; rtl_free new; pure ptr) h
unfolding shrink
shrink-split sys_brk h a new ptr e low top slot sum wide =
    rw (load_lem a h low top, ◌>>=◌, slot, sum, le→leb (new + 8) e wide) refl

-- Where the free list is empty and `rtl_realloc` makes a slot in use smaller by a unit or more, the
-- result is the block as it was, its slot ends where the new size wants it, and the first free slot
-- is the last unit of that slot, behind its header.
pub rtl_realloc-overlap :
    (sys_brk : ℕ → ℕ → ℕ) (h : Heap) (a e size : ℕ)
    → IsHeap h []
    → InUse h [] a e
    → 0 < size
    → size + 7 < 2 ^ 32
    → units_of size ≤ 0xFFFFFF
    → a + units_of size * 8 + 8 ≤ e
    → Ends
        (λ r h'.
          (r ≡ a + 8)
          × (h'.words a ≡ a + units_of size * 8)
          × (a + 8 ≤ h'.free_anchor)
          × (h'.free_anchor + 8 ≡ h'.words a))
        (rtl_realloc sys_brk (a + 8) size h)
rtl_realloc-overlap sys_brk h a e size is use_ pos word few wide =
    let low = use_.low in
    let top = use_.top in
    let within = is.within in
    let bounds = units_of-bounds size word in
    let u = units_of size in
    let new = a + u * 8 in
    let sum = plus_units_lem new 1 (omega arith) (omega arith) in
    let h₁ = record h { words = update h.words new e } in
    let h₂ = record h₁ { words = update h₁.words a new } in
    let first = store_lem new e h (omega arith) (omega arith) in
    let second = store_lem a new h₁ low (omega arith) in
    let freed =
      rtl_free-only h₂ new is.chain (omega arith) (omega arith) (omega arith) (omega arith) in
    let kept : update h₂.words (new - 8 + 4) 0 a ≡ new =
      update_other h₂.words (new - 8 + 4) 0 a (omega arith) ∙ update_self h₁.words a new in
    rw
      (
        rtl_realloc-place_data sys_brk h [] a e size is use_ pos few,
        place_data-shrink sys_brk h [] a e size u (u32 (e + 2 ^ 32 - a) / 8 * 8) is use_ few
            (omega arith),
        shrink-split sys_brk h a new (a + 8) e low (omega arith) use_.slot sum wide,
      )
      (rw (first, second, freed, ◌>>=◌) (refl, kept, omega arith, omega (arith, kept)))
