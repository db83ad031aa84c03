-- ===== src/Rtl/Memory/Break.antt =====
-- `xmem_grow` and the program break.
use mette.Base.{
  ℕ, ◌+◌, ◌*◌, ◌/◌, ◌≤◌, ◌<◌, ◌≡◌, refl, sym, inl, inr, arith, ◌==◌, ne→==-false, ==-refl, Bool,
  true, u32, Bool-cases,
}
use mathlib.Core.Path.{subst}
use mette.Rtl.Arena.{Heap, Run, done, segv, stuck, align}
use mette.Rtl.Memory.{start_arena, grow_by, xmem_grow}
use mette.Rtl.Memory.Chain.{Slots, Layout, last_addr}
use mette.Rtl.Memory.State.{limit, Ends, IsHeap}
use mette.Rtl.Memory.Grow.{BrkLaws, Grown, Outcome, failed, granted, append_arena-Grown}
use mette.Rtl.Memory.Align.{align-page}

abbrev pub IsStarted : Heap → Type 0
IsStarted h = (0 < h.arena_brk) × (h.program_break ≤ h.arena_brk) × (h.first_slot ≤ h.arena_brk)

-- The result of `append_arena` as an outcome.
Ends-granted :
    (h : Heap) (xs : Slots) (new : ℕ) (r : Run Bool)
    → Ends (λ b h'. (b ≡ true) × Grown h xs new h') r
    → Ends (Outcome h xs new) r
Ends-granted h xs new (done b h') ends =
    subst (λ t. Outcome h xs new t h') (sym ends.0) (granted ends.1)
Ends-granted h xs new segv ends = elim ends [ ]
Ends-granted h xs new stuck ends = elim ends [ ]

-- The address that `xmem_grow` asks for.
abbrev pub new_brk : Heap → ℕ → ℕ
new_brk h units = h.arena_brk + (units * 8 + 4095) / 4096 * 4096

module _ (sys_brk : ℕ → ℕ → ℕ) (laws : BrkLaws sys_brk) where
  pub grow_by-Grown :
      (h : Heap) (xs : Slots) (new : ℕ)
      → IsHeap h xs
      → IsStarted h
      → h.arena_brk + 8 ≤ new
      → sys_brk h.program_break new ≡ new
      → Ends (λ b h'. (b ≡ true) × Grown h xs new h') (grow_by sys_brk (last_addr 0 xs) new h)
  unfolding grow_by
  grow_by-Grown h xs new is started room yielded =
      let high : new ≤ limit =
        subst (λ (t : ℕ). t ≤ limit) yielded (laws.within h.program_break new is.within) in
      rw (yielded, ne→==-false h.arena_brk new (omega arith), ==-refl new)
        (append_arena-Grown h new room high started xs is)

  grow_by-Outcome :
      (h : Heap) (xs : Slots) (new : ℕ)
      → IsHeap h xs
      → IsStarted h
      → h.arena_brk + 8 ≤ new
      → Ends (Outcome h xs new) (grow_by sys_brk (last_addr 0 xs) new h)
  unfolding grow_by
  grow_by-Outcome h xs new is started room = elim (laws.answers h.program_break new) [
    | inl yielded ↦
        Ends-granted h xs new (grow_by sys_brk (last_addr 0 xs) new h)
          (grow_by-Grown h xs new is started room yielded)
    | inr kept ↦ elim (Bool-cases (h.arena_brk == h.program_break)) [
      | inl equal ↦ rw (kept, equal) (failed is refl)
      | inr differ ↦
          rw (kept, differ, ne→==-false new h.program_break (omega arith)) (failed is refl)
    ]
  ]

  -- The arena has started, with the same free list.
  pub start_arena-IsHeap :
      (h : Heap) (xs : Slots)
      → IsHeap h xs
      → IsHeap (start_arena sys_brk h) xs
        × IsStarted (start_arena sys_brk h)
        × (h.arena_brk ≤ (start_arena sys_brk h).arena_brk)
  unfolding start_arena
  start_arena-IsHeap h xs is = elim is.arena [
    | inr started ↦ rw (ne→==-false h.arena_brk 0 (omega arith)) (is, started, omega arith)
    | inl fresh ↦
        let page = align-page h.program_break in
        let first : (0 < align h.program_break 4096)
            × (h.program_break ≤ align h.program_break 4096)
            × (align h.program_break 4096 ≤ limit) =
          omega arith in
        rw (fresh.0, laws.query h.program_break)
          (
            record {
              chain = is.chain;
              layout =
                  subst (λ t. Layout (align h.program_break 4096) h.program_break t) (sym fresh.1)
                    tt;
              arena = inr (first.0, first.1, omega arith);
              within = is.within;
              arena_within = first.2;
              begun = is.begun;
            },
            (first.0, first.1, omega arith),
            omega arith,
          )
  ]

  pub xmem_grow-Outcome :
      (h : Heap) (xs : Slots) (units : ℕ)
      → IsHeap h xs
      → 0 < units
      → units ≤ 0xFFFFFF
      → Ends
          (Outcome (start_arena sys_brk h) xs (new_brk (start_arena sys_brk h) units))
          (xmem_grow sys_brk units (last_addr 0 xs) h)
  unfolding xmem_grow
  xmem_grow-Outcome h xs units is some_units few =
      let (is', started, later) = start_arena-IsHeap h xs is in
      let h' = start_arena sys_brk h in
      let page = align-page (u32 (units * 8)) in
      let request : u32 (h'.arena_brk + align (u32 (units * 8)) 4096)
          ≡ h'.arena_brk + (units * 8 + 4095) / 4096 * 4096 =
        omega arith in
      rw request (
        grow_by-Outcome h' xs (h'.arena_brk + (units * 8 + 4095) / 4096 * 4096) is' started
          (omega arith))
