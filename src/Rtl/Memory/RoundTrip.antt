-- ===== src/Rtl/Memory/RoundTrip.antt =====
-- `rtl_alloc`, writes to the block, and `rtl_free`.
use mette.Base.{ℕ, ◌+◌, ◌*◌, ◌≤◌, ◌<◌, ◌≡◌, ◌≢◌, sym, ◌∙◌, arith, All, List, [], ◌∷◌, ◌++◌}
use mathlib.Core.Path.{subst}
use mette.Rtl.Arena.{Heap, ◌>>=◌, ◌>>◌, Cmd, pure, update, store}
use mette.Rtl.Memory.{units_of, rtl_alloc, rtl_free}
use mette.Rtl.Memory.Chain.{Slots, Seg, Layout, Layout-append_left, Layout-append_right, behind-le}
use mette.Rtl.Memory.State.{Ends, Ends-mono, Ends-bind, IsHeap, store_lem}
use mette.Rtl.Memory.Spec.{FirstFit, Apart, give_back, give_back-cut, cut_end, leftover, Outside}
use mette.Rtl.Memory.Links.{update_other}
use mette.Rtl.Memory.Align.{units_of-pos}
use mette.Rtl.Memory.Alloc.{Allocated, IsHeap-arena}
use mette.Rtl.Memory.Total.{cut-Apart, rtl_alloc-Allocated}
use mette.Rtl.Memory.Free.{InUse, Freed, rtl_free-Freed}

Seg-update :
    (words : ℕ → ℕ) (lo hi p x v : ℕ) (xs : Slots)
    → Layout lo hi xs
    → Outside x xs
    → Seg words p xs 0
    → Seg (update words x v) p xs 0
Seg-update words lo hi p x v [] l out s = s
Seg-update words lo hi p x v ((c, f) ∷ xs) l out s =
    let end : c ≢ x = ground arith in
    let next : c + 4 ≢ x = ground arith in
    (
      s.0,
      update_other words x v c end ∙ s.1,
      subst (λ (y : ℕ). Seg (update words x v) y xs 0) (sym (update_other words x v (c + 4) next))
          (Seg-update words (f + 1) hi (words (c + 4)) x v xs l.4 out.1 s.2),
    )

pub Apart-Outside : (a e x : ℕ) (xs : Slots) → Apart (a, e) xs → a ≤ x → x < e → Outside x xs
Apart-Outside a e x [] apart low high = tt
Apart-Outside a e x ((c, f) ∷ xs) apart low high =
    (ground arith, Apart-Outside a e x xs apart.1 low high)

-- A write to the data of a slot in use keeps the free list in order and the slot in use.
pub store-InUse :
    (h : Heap) (xs : Slots) (a e x v : ℕ)
    → IsHeap h xs
    → InUse h xs a e
    → a + 8 ≤ x
    → x + 4 ≤ e
    → Ends (λ _ h'. IsHeap h' xs × InUse h' xs a e) (store x v h)
store-InUse h xs a e x v is use_ low high =
    let starts = use_.low in
    let ends = use_.top in
    rw (store_lem x v h (omega arith) (omega arith)) (
      record {
        chain =
            Seg-update h.words h.first_slot h.program_break h.free_anchor x v xs is.layout
              (Apart-Outside a e x xs use_.apart (omega arith) (omega arith)) is.chain;
        layout = is.layout;
        arena = is.arena;
        within = is.within;
        arena_within = is.arena_within;
        begun = is.begun;
      },
      record {
        started = use_.started;
        low = starts;
        pos = use_.pos;
        wide = use_.wide;
        top = ends;
        slot = update_other h.words x v a (omega arith) ∙ use_.slot;
        apart = use_.apart;
      },
    )

-- Writes of words, each at an offset into the data of the block at `ptr`.
pub write_all : ℕ → List (ℕ × ℕ) → Cmd (Unit {0})
write_all ptr [] = pure tt
write_all ptr ((offset, v) ∷ writes) = store (ptr + offset) v >> write_all ptr writes

write_all-InUse :
    (h : Heap) (xs : Slots) (a e n : ℕ) (writes : List (ℕ × ℕ))
    → IsHeap h xs
    → InUse h xs a e
    → a + n ≤ e
    → All (λ (w : ℕ × ℕ). w.0 + 12 ≤ n) writes
    → Ends (λ _ h'. IsHeap h' xs × InUse h' xs a e) (write_all (a + 8) writes h)
unfolding write_all
write_all-InUse h xs a e n [] is use_ large inside = (is, use_)
write_all-InUse h xs a e n ((offset, v) ∷ writes) is use_ large inside =
    Ends-bind (λ _ h'. IsHeap h' xs × InUse h' xs a e) (λ _ h'. IsHeap h' xs × InUse h' xs a e)
      (store (a + 8 + offset) v) (λ _. write_all (a + 8) writes) h
      (store-InUse h xs a e (a + 8 + offset) v is use_ (omega arith) (omega arith))
      (λ _ g kept. write_all-InUse g xs a e n writes kept.0 kept.1 large inside.1)

-- The slot that `rtl_alloc` takes is in use.
pub Allocated-InUse :
    (h : Heap) (n : ℕ) (xs : Slots)
    → IsHeap h xs
    → (fit : FirstFit n xs) → 8 ≤ n
    → (r : ℕ) (h' : Heap) → Allocated h n xs fit r h'
    → InUse h' (fit.pre ++ (leftover n fit.a fit.e ++ fit.post)) fit.a (cut_end n fit.a fit.e)
Allocated-InUse h n xs is fit wide r h' got =
    let all : IsHeap h (fit.pre ++ (fit.a, fit.e) ∷ fit.post) =
      subst (λ t. IsHeap h t) fit.parts is in
    let started = IsHeap-arena h fit.pre fit.post (fit.a, fit.e) all in
    let left =
      Layout-append_left h.first_slot h.program_break fit.pre ((fit.a, fit.e) ∷ fit.post)
        all.layout in
    let right =
      Layout-append_right h.first_slot h.program_break fit.pre ((fit.a, fit.e) ∷ fit.post)
        all.layout in
    let grows = behind-le h.first_slot h.program_break fit.pre left in
    let large = fit.large in
    record {
      started = rw got.same.1 started.0;
      low = rw got.same.0 (omega arith);
      pos = right.1;
      wide = ground arith;
      top = rw got.same.2 (ground arith);
      slot = got.end;
      apart =
          cut-Apart n h.first_slot h.program_break fit.a fit.e fit.pre fit.post fit.large
            all.layout;
    }

-- A block that `rtl_alloc` takes from a free slot can be written to, word by word within the units
-- asked for, and freed: the free list is then what it was.
pub rtl_alloc-rtl_free :
    (sys_brk : ℕ → ℕ → ℕ) (h : Heap) (xs : Slots) (size : ℕ) (writes : List (ℕ × ℕ))
    → IsHeap h xs
    → FirstFit (units_of size * 8) xs
    → units_of size ≤ 0xFFFFFF
    → All (λ (w : ℕ × ℕ). w.0 + 12 ≤ units_of size * 8) writes
    → Ends
        (λ _ h'. IsHeap h' xs)
        ((do ptr ← rtl_alloc sys_brk size; write_all ptr writes; rtl_free ptr) h)
rtl_alloc-rtl_free sys_brk h xs size writes is fit few inside =
    let n = units_of size * 8 in
    let wide = units_of-pos size in
    let rest = fit.pre ++ (leftover n fit.a fit.e ++ fit.post) in
    let e = cut_end n fit.a fit.e in
    let back : give_back (fit.a, e) rest ≡ xs =
      give_back-cut n h.first_slot h.program_break fit.a fit.e fit.pre fit.post (omega arith)
        fit.large (subst (λ t. Layout h.first_slot h.program_break t) fit.parts is.layout)
      ∙ sym fit.parts in
    Ends-bind (Allocated h n xs fit) (λ _ h'. IsHeap h' xs) (rtl_alloc sys_brk size)
      (λ ptr. write_all ptr writes >> rtl_free ptr) h
      (rtl_alloc-Allocated sys_brk h xs size is fit few)
      (λ ptr h₁ got. rw got.address (
        Ends-bind (λ _ h'. IsHeap h' rest × InUse h' rest fit.a e) (λ _ h'. IsHeap h' xs)
          (write_all (fit.a + 8) writes) (λ _. rtl_free (fit.a + 8)) h₁
          (write_all-InUse h₁ rest fit.a e n writes got.heap
            (Allocated-InUse h n xs is fit (omega arith) ptr h₁ got) (ground arith) inside)
          (λ _ h₂ kept.
            Ends-mono (λ _ h₃. Freed h₂ rest fit.a e h₃) (λ _ h₃. IsHeap h₃ xs)
              (rtl_free (fit.a + 8) h₂) (λ _ h₃ freed. subst (λ t. IsHeap h₃ t) back freed.heap)
              (rtl_free-Freed h₂ rest fit.a e kept.0 kept.1))))
