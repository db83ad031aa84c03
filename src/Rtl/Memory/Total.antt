-- ===== src/Rtl/Memory/Total.antt =====
-- `rtl_alloc` on every heap whose free list is in order.
use mette.Base.{
  ℕ, zero, suc, ◌+◌, ◌-◌, ◌*◌, ◌^◌, ◌≤◌, ◌<◌, ◌≡◌, refl, ◌⊎◌, inl, inr, arith, All-append, [], ◌∷◌,
  ◌++◌, Bool, true, false, ltb, Bool-cases, ltb-false→le, le→ltb-false, if◌then◌else◌,
}
use mathlib.Core.Path.{subst}
use mette.Rtl.Arena.{Heap, Cmd, pure, ◌>>=◌}
use mette.Rtl.Memory.{
  units_of, walk_fuel, grow_fuel, after_search, alloc_loop, xmem_grow, start_arena, rtl_alloc,
}
use mette.Rtl.Memory.Chain.{
  Slots, Layout, behind, last_addr, Layout-append_left, Layout-append_right, behind-le,
}
use mette.Rtl.Memory.State.{limit, Ends, Ends-bind, Ends-mono, IsHeap}
use mette.Rtl.Memory.Spec.{FirstFit, FirstFit-cases, cut_end, leftover, Apart}
use mette.Rtl.Memory.Walk.{search_free-exhausted}
use mette.Rtl.Memory.Align.{units_of-pos}
use mette.Rtl.Memory.Alloc.{Allocated, alloc_loop-Allocated, length-lt-walk_fuel}
use mette.Rtl.Memory.Grow.{BrkLaws, Outcome, failed, granted, grown}
use mette.Rtl.Memory.Break.{new_brk, start_arena-IsHeap, xmem_grow-Outcome}

-- A block of `n` bytes with its header at `b`, in the arena and apart from the free slots.
pub record IsBlock (n b : ℕ) (free : Slots) (h : Heap) : Type 0 where
  pub large : b + n ≤ h.words b
  pub mapped : (h.first_slot ≤ b) × (h.words b ≤ h.program_break)
  pub apart : Apart (b, h.words b) free

-- The free list is in order, and the result is the null pointer or points behind the header of a
-- block.
pub record Served (n r : ℕ) (h : Heap) : Type 0 where
  pub free : Slots
  pub heap : IsHeap h free
  pub block : (r ≡ 0) ⊎ ((b : ℕ) × (r ≡ b + 8) × IsBlock n b free h)

below-Apart :
    (lo hi a e : ℕ) (xs : Slots) → Layout lo hi xs → behind lo xs ≤ a + 1 → Apart (a, e) xs
below-Apart lo hi a e [] l above = tt
below-Apart lo hi a e ((c, f) ∷ xs) l above =
    let grows = behind-le (f + 1) hi xs l.4 in
    (inr (omega arith), below-Apart (f + 1) hi a e xs l.4 above)

above-Apart : (lo hi a e : ℕ) (xs : Slots) → Layout lo hi xs → e ≤ lo → Apart (a, e) xs
above-Apart lo hi a e [] l below = tt
above-Apart lo hi a e ((c, f) ∷ xs) l below =
    (inl (omega arith), above-Apart (f + 1) hi a e xs l.4 (omega arith))

pub cut-Apart :
    (n lo hi a e : ℕ) (pre post : Slots)
    → a + n ≤ e
    → Layout lo hi (pre ++ (a, e) ∷ post)
    → Apart (a, cut_end n a e) (pre ++ (leftover n a e ++ post))
cut-Apart n lo hi a e pre post large l =
    let right = Layout-append_right lo hi pre ((a, e) ∷ post) l in
    let before =
      below-Apart lo hi a (cut_end n a e) pre (Layout-append_left lo hi pre ((a, e) ∷ post) l)
        (omega arith) in
    All-append _ pre (leftover n a e ++ post) before (elim (Bool-cases (ltb (a + n + 8) e)) [
      | inl part ↦
          rw part (inl (omega arith), above-Apart (e + 1) hi a (a + n) post right.4 (omega arith))
      | inr whole ↦ rw whole (above-Apart (e + 1) hi a e post right.4 (omega arith))
    ])

pub cut-large : (n a e : ℕ) → a + n ≤ e → a + n ≤ cut_end n a e
cut-large n a e large = ground arith

pub cut-le : (n a e hi : ℕ) → a + n ≤ e → e ≤ hi → cut_end n a e ≤ hi
cut-le n a e hi large top = ground arith

Allocated-Served :
    (h : Heap) (n : ℕ) (xs : Slots) (is : IsHeap h xs) (fit : FirstFit n xs) (r : ℕ) (h' : Heap)
    → Allocated h n xs fit r h'
    → Served n r h'
Allocated-Served h n xs is fit r h' got =
    let l = subst (λ t. Layout h.first_slot h.program_break t) fit.parts is.layout in
    let right =
      Layout-append_right h.first_slot h.program_break fit.pre ((fit.a, fit.e) ∷ fit.post) l in
    let grows =
      behind-le h.first_slot h.program_break fit.pre
        (Layout-append_left h.first_slot h.program_break fit.pre ((fit.a, fit.e) ∷ fit.post) l) in
    let fits = fit.large in
    let apart = cut-Apart n h.first_slot h.program_break fit.a fit.e fit.pre fit.post fit.large l in
    record {
      free = fit.pre ++ (leftover n fit.a fit.e ++ fit.post);
      heap = got.heap;
      block = inr (
        fit.a,
        got.address,
        record {
          large = rw got.end (cut-large n fit.a fit.e fit.large);
          mapped = (
            rw got.same.0 (omega arith),
            rw (got.end, got.same.2) (cut-le n fit.a fit.e h.program_break fit.large right.3),
          );
          apart = rw got.end apart;
        },
      );
    }

module _ (sys_brk : ℕ → ℕ → ℕ) (laws : BrkLaws sys_brk) (units : ℕ) (some_units : 0 < units)
    (few : units ≤ 0xFFFFFF) where
  after_grow :
      (again : Cmd ℕ) (h : Heap) (xs : Slots) (new : ℕ) (grown : Bool) (h' : Heap)
      → ((g : Heap) (ys : Slots)
          → IsHeap g ys
          → g.arena_brk ≡ new
          → Ends (Served (units * 8)) (again g))
      → Outcome h xs new grown h'
      → Ends (Served (units * 8)) ((if grown then again else pure 0) h')
  after_grow again h xs new false h' next (failed is _) = record {
    free = xs;
    heap = is;
    block = inl refl;
  }
  after_grow again h xs new true h' next (granted more) =
      next h' (grown h.arena_brk new xs) more.heap more.arena_brk

  pub alloc_loop-Served :
      (fuel : ℕ) (h : Heap) (xs : Slots)
      → IsHeap h xs
      → limit < h.arena_brk + fuel * 4096
      → Ends (Served (units * 8)) (alloc_loop sys_brk fuel units h)
  unfolding alloc_loop after_search
  alloc_loop-Served zero h xs is enough = absurd (omega (arith, is.arena_within))
  alloc_loop-Served (suc fuel) h xs is enough = elim (FirstFit-cases (units * 8) xs) [
    | inl fit ↦
        Ends-mono (Allocated h (units * 8) xs fit) (Served (units * 8))
          (alloc_loop sys_brk (suc fuel) units h)
          (λ r h'. Allocated-Served h (units * 8) xs is fit r h')
          (alloc_loop-Allocated sys_brk h units some_units few fuel xs is fit)
    | inr small ↦
        let rounds = length-lt-walk_fuel h.first_slot h.program_break xs is.layout is.within in
        let found =
          search_free-exhausted h units some_units few is.within walk_fuel 0 h.free_anchor
            h.first_slot xs (omega arith) is.layout is.chain small rounds in
        let (started_heap, started, later) = start_arena-IsHeap sys_brk laws h xs is in
        let new = new_brk (start_arena sys_brk h) units in
        let outcome = xmem_grow-Outcome sys_brk laws h xs units is some_units few in
        rw (found, ◌>>=◌)
          (Ends-bind (Outcome (start_arena sys_brk h) xs new) (Served (units * 8))
            (xmem_grow sys_brk units (last_addr 0 xs))
            (λ more. if more then alloc_loop sys_brk fuel units else pure 0) h outcome
            (λ more h'.
              after_grow (alloc_loop sys_brk fuel units) (start_arena sys_brk h) xs new more h'
                (λ g ys is' at. alloc_loop-Served fuel g ys is' (omega arith))))
  ]

grow_fuel_lem : limit < grow_fuel * 4096
unfolding grow_fuel
grow_fuel_lem = omega arith

grow_fuel-suc : grow_fuel ≡ suc (2 ^ 20 - 1)
unfolding grow_fuel
grow_fuel-suc = refl

module _ (sys_brk : ℕ → ℕ → ℕ) (h : Heap) (xs : Slots) (size : ℕ) (is : IsHeap h xs) where
  -- On a heap whose free list is in order, and with a kernel that keeps to the rules of brk,
  -- `rtl_alloc` ends without a fault, the free list is in order again, and the result is the null
  -- pointer or points behind the header of a slot with the units asked for, which lies in the arena
  -- and has no address in common with the free slots.
  pub rtl_alloc-Served :
      BrkLaws sys_brk → Ends (Served (units_of size * 8)) (rtl_alloc sys_brk size h)
  unfolding rtl_alloc
  rtl_alloc-Served laws = elim (Bool-cases (ltb 0xFFFFFF (units_of size))) [
    | inl huge ↦ rw huge (record { free = xs; heap = is; block = inl refl })
    | inr few ↦ rw few (
        alloc_loop-Served sys_brk laws (units_of size) (units_of-pos size)
          (ltb-false→le 0xFFFFFF (units_of size) few) grow_fuel h xs is
          (omega (arith, grow_fuel_lem)))
  ]

  -- `rtl_alloc` takes the first free slot that is large enough: where more than a header would be
  -- left over, that is cut off and stays free. No word outside the free slots changes.
  pub rtl_alloc-Allocated :
      (fit : FirstFit (units_of size * 8) xs)
      → units_of size ≤ 0xFFFFFF
      → Ends (Allocated h (units_of size * 8) xs fit) (rtl_alloc sys_brk size h)
  unfolding rtl_alloc
  rtl_alloc-Allocated fit few =
      rw (le→ltb-false 0xFFFFFF (units_of size) few, grow_fuel-suc)
        (alloc_loop-Allocated sys_brk h (units_of size) (units_of-pos size) few (2 ^ 20 - 1) xs is
          fit)
