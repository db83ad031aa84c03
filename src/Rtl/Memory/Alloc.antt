-- ===== src/Rtl/Memory/Alloc.antt =====
-- `rtl_alloc` where a free slot fits.
use mette.Base.{ℕ, suc, ◌+◌, ◌*◌, ◌≤◌, ◌<◌, ◌≡◌, refl, ◌⊎◌, inl, inr, arith, [], ◌∷◌, ◌++◌, length}
use mathlib.Core.Path.{subst}
use mette.Rtl.Arena.{Heap, ◌>>=◌}
use mette.Rtl.Memory.{walk_fuel, after_search, alloc_loop}
use mette.Rtl.Memory.Chain.{
  Slots, Seg, Layout, behind, Layout_mono, Layout-append, Layout-append_left, Layout-append_right,
}
use mette.Rtl.Memory.State.{limit, Ends, IsHeap, length-le}
use mette.Rtl.Memory.Spec.{FirstFit, cut_end, leftover, leftover-Layout, Outside}
use mette.Rtl.Memory.Links.{SameArena}
use mette.Rtl.Memory.Walk.{search_free-fits}
use mette.Rtl.Memory.Use.{use_slot-Taken}

pub length-lt-walk_fuel :
    (lo hi : ℕ) (xs : Slots) → Layout lo hi xs → hi ≤ limit → length xs < walk_fuel
unfolding walk_fuel
length-lt-walk_fuel lo hi [] l top = omega arith
length-lt-walk_fuel lo hi ((a, e) ∷ xs) l top = omega (arith, length-le lo hi a e xs l)

-- What of the heap does not depend on the free list carries over.
pub IsHeap_keep :
    (h h' : Heap) (xs ys : Slots)
    → IsHeap h xs
    → SameArena h h'
    → Seg h'.words h'.free_anchor ys 0
    → Layout h.first_slot h.program_break ys
    → ((h.arena_brk ≡ 0) × (ys ≡ []))
      ⊎ ((0 < h.arena_brk) × (h.program_break ≤ h.arena_brk) × (h.first_slot ≤ h.arena_brk))
    → IsHeap h' ys
IsHeap_keep h h' xs ys is same chain layout arena = record {
  chain = chain;
  layout = rw (same.0, same.2) layout;
  arena = rw (same.0, same.1, same.2) arena;
  within = rw same.2 is.within;
  arena_within = rw same.1 is.arena_within;
  begun = rw same.2 is.begun;
}

-- An arena with a free slot has started.
pub IsHeap-arena :
    (h : Heap) (pre post : Slots) (s : ℕ × ℕ)
    → IsHeap h (pre ++ s ∷ post)
    → (0 < h.arena_brk) × (h.program_break ≤ h.arena_brk) × (h.first_slot ≤ h.arena_brk)
IsHeap-arena h pre post s is = elim is.arena [
  | inr started ↦ started
  | inl fresh ↦ absurd (append-cons pre fresh.1)
]
  where
    append-cons : (pre : Slots) → (pre ++ s ∷ post) ≡ [] → ⊥
    append-cons [] e = cc
    append-cons (x ∷ pre) e = cc

pub length-append_le : (xs ys : Slots) → length xs ≤ length (xs ++ ys)
length-append_le [] ys = omega arith
length-append_le (x ∷ xs) ys = omega (arith, length-append_le xs ys)

pub cut-Layout :
    (n lo hi a e : ℕ) (pre post : Slots)
    → 8 ≤ n
    → a + n ≤ e
    → Layout lo hi (pre ++ (a, e) ∷ post)
    → Layout lo hi (pre ++ (leftover n a e ++ post))
cut-Layout n lo hi a e pre post wide large l =
    let right = Layout-append_right lo hi pre ((a, e) ∷ post) l in
    Layout-append lo hi pre (leftover n a e ++ post)
      (Layout-append_left lo hi pre ((a, e) ∷ post) l)
      (Layout_mono (a + 8) hi (behind lo pre) hi (leftover n a e ++ post) (omega arith)
        (omega arith) (leftover-Layout n hi a e post wide large right.3 right.4))

-- The heap after `n` bytes are taken from the first slot that fits.
pub record Allocated (h : Heap) (n : ℕ) (xs : Slots) (fit : FirstFit n xs) (r : ℕ) (h' : Heap)
    : Type 0 where
  pub address : r ≡ fit.a + 8
  pub heap : IsHeap h' (fit.pre ++ (leftover n fit.a fit.e ++ fit.post))
  pub end : h'.words fit.a ≡ cut_end n fit.a fit.e
  pub others : (x : ℕ) → Outside x xs → h'.words x ≡ h.words x
  pub same : SameArena h h'

module _ (sys_brk : ℕ → ℕ → ℕ) (h : Heap) (units : ℕ) (some_units : 0 < units)
    (few : units ≤ 0xFFFFFF) where
  pub alloc_loop-Allocated :
      (fuel : ℕ) (xs : Slots)
      → IsHeap h xs
      → (fit : FirstFit (units * 8) xs)
      → Ends (Allocated h (units * 8) xs fit) (alloc_loop sys_brk (suc fuel) units h)
  unfolding alloc_loop after_search
  alloc_loop-Allocated fuel xs is fit =
      let all = fit.pre ++ (fit.a, fit.e) ∷ fit.post in
      let is' : IsHeap h all = subst (λ t. IsHeap h t) fit.parts is in
      let pre_length = length-append_le fit.pre ((fit.a, fit.e) ∷ fit.post) in
      let rounds = length-lt-walk_fuel h.first_slot h.program_break all is'.layout is.within in
      let found =
        search_free-fits h units some_units few is.within walk_fuel 0 h.free_anchor h.first_slot
          fit.a fit.e fit.pre fit.post (omega arith) is'.layout is'.chain fit.small fit.large
          (omega arith) in
      let (h', run, taken) =
        use_slot-Taken h h.first_slot units fit.a fit.e fit.pre fit.post (omega arith) is.within
          some_units few is'.layout is'.chain fit.large in
      rw (found, ◌>>=◌, run)
        (record {
          address = refl;
          heap =
              IsHeap_keep h h' all (fit.pre ++ (leftover (units * 8) fit.a fit.e ++ fit.post)) is'
                taken.same taken.chain
                (cut-Layout (units * 8) h.first_slot h.program_break fit.a fit.e fit.pre fit.post
                  (omega arith) fit.large is'.layout)
                (inr (IsHeap-arena h fit.pre fit.post (fit.a, fit.e) is'));
          end = taken.end;
          same = taken.same;
          others = λ x out. taken.others x (subst (λ t. Outside x t) fit.parts out);
        })
