-- ===== src/Rtl/Memory/Free.antt =====
-- `rtl_free`.
use mette.Base.{
  ℕ, ◌+◌, ◌-◌, ◌^◌, ◌≤◌, ◌<◌, ◌≡◌, sym, ap, ◌∙◌, inl, inr, arith, [], ◌∷◌, ◌++◌, ne→==-false, u32,
}
use mathlib.Core.Path.{subst}
use mette.Rtl.Arena.{Heap, ◌>>=◌}
use mette.Rtl.Memory.{merge_up, merge_down, walk_fuel, release, rtl_free}
use mette.Rtl.Memory.Chain.{Slots, Seg, Layout, last_addr, Layout-append, Seg-cut}
use mette.Rtl.Memory.State.{Ends, Ends-mono, Ends-bind, IsHeap}
use mette.Rtl.Memory.Spec.{Apart, join, join-Layout, give_back, Outside}
use mette.Rtl.Memory.Links.{SameArena}
use mette.Rtl.Memory.Place.{Place, Apart-Place, find_place-place}
use mette.Rtl.Memory.Merge.{Around, Joined, merge_down-Joined}
use mette.Rtl.Memory.Upward.{IsUpward, merge_up-Upward}
use mette.Rtl.Memory.Use.{Outside-append}
use mette.Rtl.Memory.Alloc.{IsHeap_keep, length-lt-walk_fuel}

-- The slot from `a` to `e` is in use: it lies in the arena, and apart from the free slots.
pub record InUse (h : Heap) (xs : Slots) (a e : ℕ) : Type 0 where
  pub started : 0 < h.arena_brk
  pub low : h.first_slot ≤ a
  pub pos : 0 < a
  pub wide : a + 8 ≤ e
  pub top : e ≤ h.program_break
  pub slot : h.words a ≡ e
  pub apart : Apart (a, e) xs

-- The slot is free, and no word outside it and the free slots has changed.
pub record Freed (h : Heap) (xs : Slots) (a e : ℕ) (h' : Heap) : Type 0 where
  pub heap : IsHeap h' (give_back (a, e) xs)
  pub others : (x : ℕ) → Outside x xs → Outside x ((a, e) ∷ []) → h'.words x ≡ h.words x
  pub same : SameArena h h'

pub IsHeap-started :
    (h : Heap) (xs : Slots)
    → IsHeap h xs
    → 0 < h.arena_brk
    → (0 < h.arena_brk) × (h.program_break ≤ h.arena_brk) × (h.first_slot ≤ h.arena_brk)
IsHeap-started h xs is begun = elim is.arena [
  | inl fresh ↦ absurd (omega arith)
  | inr started ↦ started
]

module _ (h : Heap) (xs : Slots) (a e : ℕ) (is : IsHeap h xs) (use_ : InUse h xs a e) where
  Joined-Freed :
      (pre post : Slots) (q s : ℕ) (h₁ h₂ : Heap)
      → xs ≡ pre ++ post
      → (up : IsUpward h h.first_slot pre a e q post s h₁) → Joined h₁ up.front s e post h₂
      → Freed h xs a e h₂
  Joined-Freed pre post q s h₁ h₂ parts up joined =
      let same : SameArena h h₂ =
        omega
          (arith, joined.same.0, joined.same.1, joined.same.2, up.same.0, up.same.1, up.same.2) in
      let list : give_back (a, e) xs ≡ up.front ++ join (s, e) post =
        ap (give_back (a, e)) parts ∙ up.list in
      let around = up.around in
      let layout : Layout h.first_slot h.program_break (up.front ++ join (s, e) post) =
        Layout-append h.first_slot h.program_break up.front (join (s, e) post) around.front_layout (
          join-Layout _ h.program_break s e post around.above around.pos around.wide around.top
            around.post_layout) in
      record {
        heap =
            subst (λ t. IsHeap h₂ t) (sym list)
              (IsHeap_keep h h₂ xs (up.front ++ join (s, e) post) is same joined.chain layout
                (inr (IsHeap-started h xs is use_.started)));
        others = λ x out out'.
            let (in_pre, _) = Outside-append x pre post (subst (λ t. Outside x t) parts out) in
            let (ne, ne') = up.in_block x in_pre out' in
            joined.others x ne ne' ∙ up.others x in_pre;
        same = same;
      }

  release-Freed :
      (place : Place h.first_slot h.program_break a e xs)
      → Ends (λ _ h'. Freed h xs a e h') (release a h)
  unfolding release
  release-Freed place =
      let low = use_.low in
      let wide = use_.wide in
      let (q, before, after) =
        Seg-cut h.words h.free_anchor 0 place.pre place.post
          (subst (λ t. Seg h.words h.free_anchor t 0) place.parts is.chain) in
      let rounds =
        length-lt-walk_fuel h.first_slot h.program_break place.pre place.before is.within in
      let found =
        find_place-place h a e (omega arith) walk_fuel 0 h.free_anchor q h.first_slot place.pre
          place.post (omega arith) place.before place.ends place.after before after rounds in
      let up =
        merge_up-Upward h h.first_slot a e q place.post (omega arith) low use_.pos wide use_.top
          use_.slot place.after after place.pre place.before place.ends before in
      rw (found, ◌>>=◌)
        (Ends-bind (IsUpward h h.first_slot place.pre a e q place.post) (λ _ h'. Freed h xs a e h')
          (merge_up (last_addr 0 place.pre) a) (λ s. merge_down s q) h up
          (λ s h₁ up₁.
            Ends-mono (λ _ h₂. Joined h₁ up₁.front s e place.post h₂) (λ _ h₂. Freed h xs a e h₂)
              (merge_down s q h₁)
              (λ _ h₂ joined. Joined-Freed place.pre place.post q s h₁ h₂ place.parts up₁ joined)
              (merge_down-Joined h₁ h.first_slot (omega (arith, up₁.same.0)) up₁.front s e q
                place.post up₁.is
                (subst (λ (x : ℕ). Around h.first_slot x up₁.front s e place.post) (sym up₁.same.2)
                  up₁.around))))

  -- `rtl_free` of a slot in use puts it into the free list at its place, joined with the free slots
  -- that it touches; the free list is in order again, and no word outside the slot and the free
  -- slots changes.
  pub rtl_free-Freed : Ends (λ _ h'. Freed h xs a e h') (rtl_free (a + 8) h)
  unfolding rtl_free
  rtl_free-Freed =
      let low = use_.low in
      let wide = use_.wide in
      let top = use_.top in
      let within = is.within in
      let this : u32 (a + 8 + 2 ^ 32 - 8) ≡ a = omega arith in
      rw (ne→==-false (a + 8) 0 (omega arith), this)
        (release-Freed
          (Apart-Place h.first_slot h.program_break a e xs is.layout use_.apart (omega arith)))
