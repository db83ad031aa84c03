-- ===== src/Rtl/Memory/Overlap.antt =====
-- `xmem_grow` where the free list is not empty.
use mette.Base.{ℕ, ◌+◌, ◌*◌, ◌≤◌, ◌<◌, ◌≡◌, refl, arith, [], ◌∷◌, true, u32, ne→==-false}
use mette.Rtl.Arena.{Heap, align}
use mette.Rtl.Memory.{start_arena, xmem_grow}
use mette.Rtl.Memory.Chain.{Slots, last_addr}
use mette.Rtl.Memory.State.{Ends, Ends-mono, IsHeap}
use mette.Rtl.Memory.Spec.{Apart}
use mette.Rtl.Memory.Align.{align-page}
use mette.Rtl.Memory.Grow.{BrkLaws, Grown, grown, stretch}
use mette.Rtl.Memory.Break.{new_brk, grow_by-Grown}
use mette.Rtl.Memory.Free.{InUse, IsHeap-started}

stretch-overlap :
    (old c f a e : ℕ) (xs : Slots)
    → last_addr 0 ((c, f) ∷ xs) < a
    → a < e
    → e ≤ old
    → Apart (a, e) (stretch old (c, f) xs)
    → ⊥
stretch-overlap old c f a e [] behind_last wide top apart = ground arith
stretch-overlap old c f a e ((d, g) ∷ xs) behind_last wide top apart =
    stretch-overlap old d g a e xs behind_last wide top apart.1

started_same : (sys_brk : ℕ → ℕ → ℕ) (h : Heap) → 0 < h.arena_brk → start_arena sys_brk h ≡ h
unfolding start_arena
started_same sys_brk h begun = rw (ne→==-false h.arena_brk 0 (omega arith)) refl

-- Where there is a free slot and the kernel grants the memory, `xmem_grow` succeeds, and the free
-- list that it leaves has addresses in common with a slot in use behind the last free slot.
pub xmem_grow-overlap :
    (sys_brk : ℕ → ℕ → ℕ) (h : Heap) (c f : ℕ) (xs : Slots) (units a e : ℕ)
    → BrkLaws sys_brk
    → IsHeap h ((c, f) ∷ xs)
    → InUse h ((c, f) ∷ xs) a e
    → last_addr 0 ((c, f) ∷ xs) < a
    → 0 < units
    → units ≤ 0xFFFFFF
    → sys_brk h.program_break (new_brk h units) ≡ new_brk h units
    → Ends
        (λ b h'. (b ≡ true) × ((ys : Slots) × IsHeap h' ys × ¬ Apart (a, e) ys))
        (xmem_grow sys_brk units (last_addr 0 ((c, f) ∷ xs)) h)
unfolding xmem_grow
xmem_grow-overlap sys_brk h c f xs units a e laws is use_ behind_last some_units few yielded =
    let started = IsHeap-started h ((c, f) ∷ xs) is use_.started in
    let low = is.arena_within in
    let top = use_.top in
    let wide = use_.wide in
    let page = align-page (u32 (units * 8)) in
    let request : u32 (h.arena_brk + align (u32 (units * 8)) 4096) ≡ new_brk h units =
      omega arith in
    rw (started_same sys_brk h use_.started, request)
      (Ends-mono (λ b h'. (b ≡ true) × Grown h ((c, f) ∷ xs) (new_brk h units) h')
        (λ b h'. (b ≡ true) × ((ys : Slots) × IsHeap h' ys × ¬ Apart (a, e) ys)) _
        (λ b h' grew. (
          grew.0,
          (
            grown h.arena_brk (new_brk h units) ((c, f) ∷ xs),
            grew.1.heap,
            stretch-overlap h.arena_brk c f a e xs behind_last (omega arith) (omega arith),
          ),
        ))
        (grow_by-Grown sys_brk laws h ((c, f) ∷ xs) (new_brk h units) is started (omega arith)
          yielded))
