-- ===== src/Rtl/Memory/Grow.antt =====
-- `xmem_grow`: what becomes of the free list when the kernel grants memory, and when it does not.
use mette.Base.{
  ℕ, ◌+◌, ◌≤◌, ◌<◌, ◌≡◌, refl, sym, ◌∙◌, ◌⊎◌, inr, arith, [], ◌∷◌, ne→==-false, Bool, true, false,
}
use mathlib.Core.Path.{subst}
use mette.Rtl.Arena.{Heap, ◌>>=◌, update}
use mette.Rtl.Memory.{append_arena}
use mette.Rtl.Memory.Chain.{Slots, Seg, Layout, last_addr, last_addr_bounds}
use mette.Rtl.Memory.State.{limit, Ends, IsHeap, store_lem}
use mette.Rtl.Memory.Links.{update_other}

-- What brk(2) promises, as the wrapper `sys_brk` returns it: a request for no address is refused,
-- a refused request returns the break as it was, a granted one the new break; and the break stays
-- below the addresses of the kernel.
pub record BrkLaws (sys_brk : ℕ → ℕ → ℕ) : Type 0 where
  pub query : (current : ℕ) → sys_brk current 0 ≡ current
  pub answers :
      (current request : ℕ)
      → (sys_brk current request ≡ request) ⊎ (sys_brk current request ≡ current)
  pub within : (current request : ℕ) → current ≤ limit → sys_brk current request ≤ limit

-- The free list whose last slot ends at `old`.
abbrev pub stretch : ℕ → ℕ × ℕ → Slots → Slots
stretch old (a, e) [] = (a, old) ∷ []
stretch old (a, e) (s ∷ xs) = (a, e) ∷ stretch old s xs

-- The free list after the arena grows from `old` to `new`.
abbrev pub grown : ℕ → ℕ → Slots → Slots
grown old new [] = (old, new) ∷ []
grown old new (s ∷ xs) = stretch old s xs

pub stretch-Layout :
    (lo hi old hi' a e : ℕ) (xs : Slots)
    → hi ≤ old
    → old ≤ hi'
    → Layout lo hi ((a, e) ∷ xs)
    → Layout lo hi' (stretch old (a, e) xs)
stretch-Layout lo hi old hi' a e [] top more l = (l.0, l.1, omega arith, more, tt)
stretch-Layout lo hi old hi' a e ((c, f) ∷ xs) top more l =
    (l.0, l.1, l.2, omega arith, stretch-Layout (e + 1) hi old hi' c f xs top more l.4)

pub stretch-Seg :
    (words : ℕ → ℕ) (lo hi prev p old a e : ℕ) (xs : Slots)
    → Layout lo hi ((a, e) ∷ xs)
    → Seg words p ((a, e) ∷ xs) 0
    → Seg (update words (last_addr prev ((a, e) ∷ xs)) old) p (stretch old (a, e) xs) 0
stretch-Seg words lo hi prev p old a e [] l s = (s.0, ground arith, ground arith)
stretch-Seg words lo hi prev p old a e ((c, f) ∷ xs) l s =
    let bounds = last_addr_bounds (e + 1) hi a c f xs l.4 in
    let last = last_addr a ((c, f) ∷ xs) in
    let same = update_other words last old a (omega arith) in
    let next = update_other words last old (a + 4) (omega arith) in
    (
      s.0,
      same ∙ s.1,
      subst (λ (x : ℕ). Seg (update words last old) x (stretch old (c, f) xs) 0) (sym next)
          (stretch-Seg words (e + 1) hi a (words (a + 4)) old c f xs l.4 s.2),
    )

-- Memory was granted: the arena has `new` as its end, and the words outside the free slots are as
-- they were.
pub record Grown (h : Heap) (xs : Slots) (new : ℕ) (h' : Heap) : Type 0 where
  pub heap : IsHeap h' (grown h.arena_brk new xs)
  pub arena_brk : h'.arena_brk ≡ new
  pub first_slot : h'.first_slot ≡ h.first_slot

abbrev pub granted_heap : Heap → ℕ → Heap
granted_heap h new = record h { program_break = new; arena_brk = new }

module _ (h : Heap) (new : ℕ) (room : h.arena_brk + 8 ≤ new) (within : new ≤ limit)
    (started : (0 < h.arena_brk)
      × (h.program_break ≤ h.arena_brk)
      × (h.first_slot ≤ h.arena_brk)) where
  append_arena-first :
      IsHeap h []
      → Ends
          (λ b h'. (b ≡ true) × Grown h [] new h')
          (append_arena 0 h.arena_brk new (granted_heap h new))
  unfolding append_arena
  append_arena-first is =
      let g = granted_heap h new in
      let g' = record g { words = update g.words h.arena_brk new } in
      let end = store_lem h.arena_brk new g started.2 (omega arith) in
      let next = store_lem (h.arena_brk + 4) 0 g' (omega arith) (omega arith) in
      rw (end, next, ◌>>=◌)
        (
          refl,
          record {
            heap = record {
              chain = (refl, ground arith, ground arith);
              layout = (started.2, started.0, room, omega arith, tt);
              arena = inr (omega arith, omega arith, omega arith);
              within = within;
              arena_within = within;
              begun = omega arith;
            };
            arena_brk = refl;
            first_slot = refl;
          },
        )

  append_arena-stretch :
      (a e : ℕ) (xs : Slots)
      → IsHeap h ((a, e) ∷ xs)
      → Ends
          (λ b h'. (b ≡ true) × Grown h ((a, e) ∷ xs) new h')
          (append_arena (last_addr 0 ((a, e) ∷ xs)) h.arena_brk new (granted_heap h new))
  unfolding append_arena
  append_arena-stretch a e xs is =
      let g = granted_heap h new in
      let last = last_addr 0 ((a, e) ∷ xs) in
      let bounds = last_addr_bounds h.first_slot h.program_break 0 a e xs is.layout in
      let end = store_lem last h.arena_brk g (omega arith) (omega arith) in
      rw (ne→==-false last 0 (omega arith), end, ◌>>=◌)
        (
          refl,
          record {
            heap = record {
              chain =
                  stretch-Seg h.words h.first_slot h.program_break 0 h.free_anchor h.arena_brk a e
                    xs is.layout is.chain;
              layout =
                  stretch-Layout h.first_slot h.program_break h.arena_brk new a e xs started.1
                    (omega arith) is.layout;
              arena = inr (omega arith, omega arith, omega arith);
              within = within;
              arena_within = within;
              begun = omega arith;
            };
            arena_brk = refl;
            first_slot = refl;
          },
        )

  pub append_arena-Grown :
      (xs : Slots)
      → IsHeap h xs
      → Ends
          (λ b h'. (b ≡ true) × Grown h xs new h')
          (append_arena (last_addr 0 xs) h.arena_brk new (granted_heap h new))
  append_arena-Grown [] is = append_arena-first is
  append_arena-Grown ((a, e) ∷ xs) is = append_arena-stretch a e xs is

-- What a call of `xmem_grow` comes to: it fails, and the free list stays; or the arena grows.
pub data Outcome (h : Heap) (xs : Slots) (new : ℕ) : Bool → Heap → Type 0 where
  failed : {h' : Heap} → IsHeap h' xs → h'.arena_brk ≡ h.arena_brk → Outcome h xs new false h'
  granted : {h' : Heap} → Grown h xs new h' → Outcome h xs new true h'
