-- ===== src/Rtl/Realloc/Move.antt =====
-- `rtl_realloc` to a size for which the slot is too small.
use mette.Base.{
  ℕ, ◌+◌, ◌-◌, ◌*◌, ◌/◌, ◌^◌, ◌≤◌, ◌<◌, ◌≡◌, refl, ◌∙◌, ◌⊎◌, inl, inr, arith, [], ◌∷◌, ◌++◌,
  ne→==-false, ◌==◌, if◌then◌else◌, lt→leb-false, ltb, Bool-cases, u32,
}
use mathlib.Core.Path.{subst}
use mette.Rtl.Arena.{Heap, ◌>>=◌, ◌>>◌, pure}
use mette.Rtl.Memory.{units_of, rtl_alloc, rtl_free}
use mette.Rtl.Memory.Chain.{Slots}
use mette.Rtl.Memory.State.{Ends, Ends-bind, IsHeap, load_lem, plus_units_lem}
use mette.Rtl.Memory.Spec.{FirstFit, Apart, give_back, cut_end, leftover}
use mette.Rtl.Memory.Alloc.{Allocated}
use mette.Rtl.Memory.Total.{rtl_alloc-Allocated, cut-large, cut-le}
use mette.Rtl.Memory.Free.{InUse, Freed, rtl_free-Freed}
use mette.Rtl.Memory.RoundTrip.{Allocated-InUse, Apart-Outside}
use mette.Rtl.Realloc.{copy_words, move, place_data, rtl_realloc}
use mette.Rtl.Realloc.Absorb.{rtl_realloc-place_data}
use mette.Rtl.Realloc.Copy.{Copied, copy_words-Copied}

Apart-cut :
    (n a e b f : ℕ) (pre post : Slots)
    → b + n ≤ f
    → Apart (a, e) (pre ++ (b, f) ∷ post)
    → ((e ≤ b) ⊎ (f ≤ a)) × Apart (a, e) (pre ++ (leftover n b f ++ post))
Apart-cut n a e b f [] post large apart = elim (Bool-cases (ltb (b + n + 8) f)) [
  | inl part ↦ rw part (apart.0, (ground arith, apart.1))
  | inr whole ↦ rw whole (apart.0, apart.1)
]
Apart-cut n a e b f (s ∷ pre) post large apart =
    let (here, rest) = Apart-cut n a e b f pre post large apart.1 in (here, (apart.0, rest))

-- The heap after the data of the slot at `a` is moved to the first slot that fits: the slot at `a`
-- is free, and word `i` of the data is the same.
pub record Moved (h : Heap) (xs : Slots) (a m n : ℕ) (fit : FirstFit n xs) (i r : ℕ) (h' : Heap)
    : Type 0 where
  pub address : r ≡ fit.a + 8
  pub heap : IsHeap h' (give_back (a, a + m * 8) (fit.pre ++ (leftover n fit.a fit.e ++ fit.post)))
  pub kept : h'.words (fit.a + 8 + i * 4) ≡ h.words (a + 8 + i * 4)

module _ (h : Heap) (xs : Slots) (a m n i : ℕ) (fit : FirstFit n xs) (is : IsHeap h xs)
    (use_ : InUse h xs a (a + m * 8)) (few : m * 8 + 8 ≤ n) (room : a + m * 8 + 8 ≤ h.program_break)
    (inside : i * 4 + 8 < m * 8) where
  abbrev remaining : Slots
  remaining = fit.pre ++ (leftover n fit.a fit.e ++ fit.post)

  Apart-remaining : ((a + m * 8 ≤ fit.a) ⊎ (fit.e ≤ a)) × Apart (a, a + m * 8) remaining
  Apart-remaining =
      Apart-cut n a (a + m * 8) fit.a fit.e fit.pre fit.post fit.large
        (subst (λ t. Apart (a, a + m * 8) t) fit.parts use_.apart)

  Copied-Moved :
      (r : ℕ) (h₁ h₂ h₃ : Heap)
      → Allocated h n xs fit r h₁
      → Copied h₁ remaining fit.a (cut_end n fit.a fit.e) (m * 2) (fit.a + 8) (a + 8) i h₂
      → Freed h₂ remaining a (a + m * 8) h₃
      → Moved h xs a m n fit i r h₃
  Copied-Moved r h₁ h₂ h₃ got copied freed =
      let (here, others) = Apart-remaining in
      let large = cut-large n fit.a fit.e fit.large in
      let high = cut-le n fit.a fit.e fit.e fit.large (omega arith) in
      let x = fit.a + 8 + i * 4 in
      let in_data =
        Apart-Outside fit.a (cut_end n fit.a fit.e) x remaining copied.slot.apart (omega arith)
          (omega arith) in
      record {
        address = got.address;
        heap = freed.heap;
        kept =
            freed.others x in_data (ground arith)
            ∙ (copied.copied (omega arith)
                ∙ got.others (a + 8 + i * 4) (
                    Apart-Outside a (a + m * 8) (a + 8 + i * 4) xs use_.apart (omega arith)
                      (omega arith)));
      }

  -- The old slot stays in use while the data is copied.
  Copied-InUse :
      (r : ℕ) (h₁ h₂ : Heap)
      → Allocated h n xs fit r h₁
      → Copied h₁ remaining fit.a (cut_end n fit.a fit.e) (m * 2) (fit.a + 8) (a + 8) i h₂
      → InUse h₂ remaining a (a + m * 8)
  Copied-InUse r h₁ h₂ got copied =
      let (here, others) = Apart-remaining in
      let large = cut-large n fit.a fit.e fit.large in
      let high = cut-le n fit.a fit.e fit.e fit.large (omega arith) in
      let low = use_.low in
      let top = use_.top in
      let wide = use_.wide in
      let begun = use_.started in
      let same = copied.same in
      let same' = got.same in
      record {
        started = omega arith;
        low = omega arith;
        pos = use_.pos;
        wide = wide;
        top = omega arith;
        slot =
            copied.others a (ground arith)
            ∙ (got.others a
                  (Apart-Outside a (a + m * 8) a xs use_.apart (omega arith) (omega arith))
                ∙ use_.slot);
        apart = others;
      }

  copied_and_freed :
      (r : ℕ) (h₁ : Heap)
      → Allocated h n xs fit r h₁
      → Ends
          (Moved h xs a m n fit i)
          ((do copy_words (m * 8 / 4) (fit.a + 8) (a + 8); rtl_free (a + 8); pure (fit.a + 8)) h₁)
  copied_and_freed r h₁ got =
      let large = cut-large n fit.a fit.e fit.large in
      let high = cut-le n fit.a fit.e fit.e fit.large (omega arith) in
      let low = use_.low in
      let same = got.same in
      let here = Apart-remaining.0 in
      let words : m * 8 / 4 ≡ m * 2 = omega arith in
      let e = cut_end n fit.a fit.e in
      rw words (
        Ends-bind (λ _ h₂. Copied h₁ remaining fit.a e (m * 2) (fit.a + 8) (a + 8) i h₂)
          (Moved h xs a m n fit i) (copy_words (m * 2) (fit.a + 8) (a + 8))
          (λ _. rtl_free (a + 8) >> pure (fit.a + 8)) h₁
          (copy_words-Copied remaining fit.a e (m * 2) (fit.a + 8) (a + 8) i h₁ got.heap
            (Allocated-InUse h n xs is fit (omega arith) r h₁ got) (omega arith) (omega arith)
            (omega arith) (omega arith) (ground arith))
          (λ _ h₂ copied.
            Ends-bind (λ _ h₃. Freed h₂ remaining a (a + m * 8) h₃) (Moved h xs a m n fit i)
              (rtl_free (a + 8)) (λ _. pure (fit.a + 8)) h₂
              (rtl_free-Freed h₂ remaining a (a + m * 8) copied.heap
                (Copied-InUse r h₁ h₂ got copied))
              (λ _ h₃ freed.
                let moved = Copied-Moved r h₁ h₂ h₃ got copied freed in
                record { address = refl; heap = moved.heap; kept = moved.kept })))

  move-Moved :
      (sys_brk : ℕ → ℕ → ℕ) (size : ℕ)
      → Ends (Allocated h n xs fit) (rtl_alloc sys_brk size h)
      → Ends (Moved h xs a m n fit i) (move sys_brk size (m * 8) (a + 8) h)
  unfolding move
  move-Moved sys_brk size allocated =
      Ends-bind (Allocated h n xs fit) (Moved h xs a m n fit i) (rtl_alloc sys_brk size)
        (λ new.
          if new == 0
          then pure 0
          else do copy_words (m * 8 / 4) new (a + 8); rtl_free (a + 8); pure new)
        h allocated
        (λ r h₁ got.
          rw (got.address, ne→==-false (fit.a + 8) 0 (omega arith)) (copied_and_freed r h₁ got))

place_data-move :
    (sys_brk : ℕ → ℕ → ℕ) (h : Heap) (xs : Slots) (a e size units count : ℕ)
    → IsHeap h xs
    → InUse h xs a e
    → units ≤ 0xFFFFFF
    → e < a + units * 8
    → place_data sys_brk size a (a + 8) units count h ≡ move sys_brk size count (a + 8) h
unfolding place_data
place_data-move sys_brk h xs a e size units count is use_ few small =
    let low = use_.low in
    let top = use_.top in
    let wide = use_.wide in
    let within = is.within in
    let end = load_lem a h low (omega arith) in
    let sum = plus_units_lem a units (omega arith) few in
    rw (end, ◌>>=◌, use_.slot, sum, lt→leb-false (a + units * 8) e small) refl

-- `rtl_realloc` to more units than the slot has, where a free slot fits and the arena goes on for 8
-- bytes behind the slot, returns the address behind the header of the first slot that fits; each
-- word of the data is there, the old slot is free, and the free list is in order.
pub rtl_realloc-Moved :
    (sys_brk : ℕ → ℕ → ℕ) (h : Heap) (xs : Slots) (a m size i : ℕ)
    → IsHeap h xs
    → InUse h xs a (a + m * 8)
    → (fit : FirstFit (units_of size * 8) xs) → 0 < size
    → units_of size ≤ 0xFFFFFF
    → m < units_of size
    → a + m * 8 + 8 ≤ h.program_break
    → i * 4 + 8 < m * 8
    → Ends (Moved h xs a m (units_of size * 8) fit i) (rtl_realloc sys_brk (a + 8) size h)
rtl_realloc-Moved sys_brk h xs a m size i is use_ fit pos few more room inside =
    let top = use_.top in
    let within = is.within in
    let e = a + m * 8 in
    let old : u32 (a + m * 8 + 2 ^ 32 - a) / 8 * 8 ≡ m * 8 = omega arith in
    rw
      (
        rtl_realloc-place_data sys_brk h xs a e size is use_ pos few,
        old,
        place_data-move sys_brk h xs a e size (units_of size) (m * 8) is use_ few (omega arith),
      )
      (move-Moved h xs a m (units_of size * 8) i fit is use_ (omega arith) room inside sys_brk size
        (rtl_alloc-Allocated sys_brk h xs size is fit few))
