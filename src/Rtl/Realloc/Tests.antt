-- ===== src/Rtl/Realloc/Tests.antt =====
-- The allocator, src/rtl/rtl_memory.c, on a small arena: two free slots, with a slot in use behind
-- each.
use mette.Base.{
  ℕ, ◌+◌, ◌*◌, ◌≤◌, ◌≡◌, refl, ◌⊎◌, inl, inr, arith, List, [], ◌∷◌, ◌==◌, leb, ◌&&◌, true,
  if◌then◌else◌,
}
use mette.Rtl.Arena.{Heap, Run, done, segv, stuck, load, store, align, ◌>>=◌, ◌>>◌}
use mette.Rtl.Memory.{
  units_of, rtl_alloc, rtl_free, xmem_grow, alloc_loop, grow_fuel, walk_fuel, search_free,
  after_search, use_slot, split, unlink, set_link, start_arena, grow_by, append_arena,
}
use mette.Rtl.Realloc.{rtl_realloc}
use mette.Rtl.Realloc.Move.{Moved, rtl_realloc-Moved}
use mette.Rtl.Realloc.Shrink.{rtl_realloc-overlap}
use mette.Rtl.Memory.Break.{new_brk}
use mette.Rtl.Memory.Overlap.{xmem_grow-overlap}
use mette.Rtl.Memory.Chain.{Slots}
use mette.Rtl.Memory.State.{limit, Ends, IsHeap}
use mette.Rtl.Memory.Spec.{FirstFit, Apart, give_back}
use mette.Rtl.Memory.Alloc.{Allocated}
use mette.Rtl.Memory.Grow.{BrkLaws}
use mette.Rtl.Memory.Total.{Served, rtl_alloc-Served, rtl_alloc-Allocated}
use mette.Rtl.Memory.Free.{InUse, Freed, rtl_free-Freed}
use mette.Rtl.Memory.RoundTrip.{write_all, rtl_alloc-rtl_free}

-- A kernel that grants every break in the address space.
abbrev grant : ℕ → ℕ → ℕ
grant current request = if leb 1 request && leb request limit then request else current

grant-BrkLaws : BrkLaws grant
grant-BrkLaws = record {
  query = λ current. refl;
  answers = λ current request. grant_answers current request;
  within = λ current request low. ground arith;
}
  where
    grant_answers :
        (current request : ℕ)
        → (grant current request ≡ request) ⊎ (grant current request ≡ current)
    grant_answers current request = ground arith

abbrev small_words : ℕ → ℕ
small_words x =
    if x == 4096
    then 4112
    else if x == 4100
    then 4160
    else if x == 4112
    then 4160
    else if x == 4160
    then 4256
    else if x == 4256
    then 8192
    else 0

abbrev small_heap : Heap
small_heap = record {
  words = small_words;
  free_anchor = 4096;
  first_slot = 4096;
  arena_brk = 8192;
  program_break = 8192;
}

abbrev small_slots : Slots
small_slots = (4096, 4112) ∷ (4160, 4256) ∷ []

small_heap-IsHeap : IsHeap small_heap small_slots
small_heap-IsHeap = record {
  chain = (refl, refl, (refl, refl, refl));
  layout = omega arith;
  arena = inr (omega arith);
  within = omega arith;
  arena_within = omega arith;
  begun = omega arith;
}

units_of_20 : units_of 20 ≡ 4
unfolding units_of
units_of_20 = refl

small_fit : FirstFit (units_of 20 * 8) small_slots
small_fit = rw units_of_20 (record {
  pre = (4096, 4112) ∷ [];
  a = 4160;
  e = 4256;
  post = [];
  parts = refl;
  small = omega arith;
  large = omega arith;
})

small_use : InUse small_heap small_slots 4112 4160
small_use = record {
  started = omega arith;
  low = omega arith;
  pos = omega arith;
  wide = omega arith;
  top = omega arith;
  slot = refl;
  apart = (inr (omega arith), (inl (omega arith), tt));
}

rtl_alloc-Served_example : Ends (Served (units_of 100 * 8)) (rtl_alloc grant 100 small_heap)
rtl_alloc-Served_example =
    rtl_alloc-Served grant small_heap small_slots 100 small_heap-IsHeap grant-BrkLaws

rtl_alloc-Allocated_example :
    Ends
      (Allocated small_heap (units_of 20 * 8) small_slots small_fit)
      (rtl_alloc grant 20 small_heap)
rtl_alloc-Allocated_example =
    rtl_alloc-Allocated grant small_heap small_slots 20 small_heap-IsHeap small_fit
      (rw units_of_20 (omega arith))

rtl_free-Freed_example :
    Ends (λ _ h'. Freed small_heap small_slots 4112 4160 h') (rtl_free 4120 small_heap)
rtl_free-Freed_example = rtl_free-Freed small_heap small_slots 4112 4160 small_heap-IsHeap small_use

-- The three slots touch, so one remains.
give_back_small : give_back (4112, 4160) small_slots ≡ (4096, 4256) ∷ []
unfolding give_back
give_back_small = refl

abbrev two_writes : List (ℕ × ℕ)
two_writes = (0, 7) ∷ (16, 9) ∷ []

rtl_alloc-rtl_free_example :
    Ends
      (λ _ h'. IsHeap h' small_slots)
      ((do ptr ← rtl_alloc grant 20; write_all ptr two_writes; rtl_free ptr) small_heap)
rtl_alloc-rtl_free_example =
    rtl_alloc-rtl_free grant small_heap small_slots 20 two_writes small_heap-IsHeap small_fit
      (rw units_of_20 (omega arith)) (rw units_of_20 (omega arith))

big_brk : grant 8192 (new_brk small_heap 1000) ≡ new_brk small_heap 1000
big_brk = refl

last_use : InUse small_heap small_slots 4256 8192
last_use = record {
  started = omega arith;
  low = omega arith;
  pos = omega arith;
  wide = omega arith;
  top = omega arith;
  slot = refl;
  apart = (inr (omega arith), (inr (omega arith), tt));
}

xmem_grow-overlap_example :
    Ends
      (λ b h'. (b ≡ true) × ((ys : Slots) × IsHeap h' ys × ¬ Apart (4256, 8192) ys))
      (xmem_grow grant 1000 4160 small_heap)
xmem_grow-overlap_example =
    xmem_grow-overlap grant small_heap 4096 4112 ((4160, 4256) ∷ []) 1000 4256 8192 grant-BrkLaws
      small_heap-IsHeap last_use (omega arith) (omega arith) (omega arith) big_brk

units_of_60 : units_of 60 ≡ 9
unfolding units_of
units_of_60 = refl

large_fit : FirstFit (units_of 60 * 8) small_slots
large_fit = rw units_of_60 (record {
  pre = (4096, 4112) ∷ [];
  a = 4160;
  e = 4256;
  post = [];
  parts = refl;
  small = omega arith;
  large = omega arith;
})

rtl_realloc-Moved_example :
    Ends
      (Moved small_heap small_slots 4112 6 (units_of 60 * 8) large_fit 1)
      (rtl_realloc grant 4120 60 small_heap)
rtl_realloc-Moved_example =
    rtl_realloc-Moved grant small_heap small_slots 4112 6 60 1 small_heap-IsHeap small_use large_fit
      (omega arith) (rw units_of_60 (omega arith)) (rw units_of_60 (omega arith)) (omega arith)
      (omega arith)

-- An arena that is one slot in use.
abbrev full_heap : Heap
full_heap = record {
  words = λ x. if x == 4096 then 8192 else 0;
  free_anchor = 0;
  first_slot = 4096;
  arena_brk = 8192;
  program_break = 8192;
}

full_heap-IsHeap : IsHeap full_heap []
full_heap-IsHeap = record {
  chain = refl;
  layout = tt;
  arena = inr (omega arith);
  within = omega arith;
  arena_within = omega arith;
  begun = omega arith;
}

full_use : InUse full_heap [] 4096 8192
full_use = record {
  started = omega arith;
  low = omega arith;
  pos = omega arith;
  wide = omega arith;
  top = omega arith;
  slot = refl;
  apart = tt;
}

rtl_realloc-overlap_example :
    Ends
      (λ r h'.
        (r ≡ 4104)
        × (h'.words 4096 ≡ 4096 + units_of 60 * 8)
        × (4104 ≤ h'.free_anchor)
        × (h'.free_anchor + 8 ≡ h'.words 4096))
      (rtl_realloc grant 4104 60 full_heap)
rtl_realloc-overlap_example =
    rtl_realloc-overlap grant full_heap 4096 8192 60 full_heap-IsHeap full_use (omega arith)
      (omega arith) (rw units_of_60 (omega arith)) (rw units_of_60 (omega arith))

-- What a call returns, and the free list after it.
abbrev returned : Run ℕ → List ℕ
returned (done r h) = r ∷ h.free_anchor ∷ h.words (h.free_anchor + 4) ∷ []
returned segv = []
returned stuck = []

-- The second slot is cut, and what is left of it follows the first.
rtl_alloc_cut : returned (rtl_alloc grant 20 small_heap) ≡ 4168 ∷ 4096 ∷ 4192 ∷ []
unfolding rtl_alloc alloc_loop grow_fuel walk_fuel search_free after_search use_slot split unlink
    set_link units_of load store
rtl_alloc_cut = refl

abbrev no_heap : Heap
no_heap = record {
  words = λ _. 0;
  free_anchor = 0;
  first_slot = 0;
  arena_brk = 0;
  program_break = 5000;
}

-- The first call starts the arena at a page.
rtl_alloc_first : returned (rtl_alloc grant 20 no_heap) ≡ 8200 ∷ 8224 ∷ 0 ∷ []
unfolding rtl_alloc alloc_loop grow_fuel walk_fuel search_free after_search use_slot split unlink
    set_link units_of load store xmem_grow start_arena grow_by append_arena align
rtl_alloc_first = refl
