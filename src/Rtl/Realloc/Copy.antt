-- ===== src/Rtl/Realloc/Copy.antt =====
-- `xmemcpy` of words into a slot in use.
use mette.Base.{ℕ, zero, suc, ◌+◌, ◌-◌, ◌*◌, ◌≤◌, ◌<◌, ◌≡◌, refl, ◌∙◌, ◌⊎◌, inl, arith}
use mathlib.Core.Path.{subst}
use mette.Rtl.Arena.{Heap, ◌>>=◌, update}
use mette.Rtl.Memory.Chain.{Slots}
use mette.Rtl.Memory.State.{Ends, Ends-mono, IsHeap, load_lem, store_lem}
use mette.Rtl.Memory.Links.{SameArena, update_other, update_self}
use mette.Rtl.Memory.Free.{InUse}
use mette.Rtl.Memory.RoundTrip.{store-InUse}
use mette.Rtl.Realloc.{copy_words}

-- The heap after `count` words are copied: those outside the copy are as they were, and word `i`
-- of the copy is the one of the source.
pub record Copied (h : Heap) (xs : Slots) (b f count dest src i : ℕ) (h' : Heap) : Type 0 where
  pub heap : IsHeap h' xs
  pub slot : InUse h' xs b f
  pub others : (x : ℕ) → (x < dest) ⊎ (dest + count * 4 ≤ x) → h'.words x ≡ h.words x
  pub copied : i < count → h'.words (dest + i * 4) ≡ h.words (src + i * 4)
  pub same : SameArena h h'

-- The first word that is copied, and the rest.
Copied-step :
    (h : Heap) (xs : Slots) (b f count dest src i : ℕ) (h' : Heap)
    → (dest + suc count * 4 ≤ src) ⊎ (src + suc count * 4 ≤ dest)
    → (let h₁ = record h { words = update h.words dest (h.words src) } in
        Copied h₁ xs b f count (dest + 4) (src + 4) (i - 1) h')
    → Copied h xs b f (suc count) dest src i h'
Copied-step h xs b f count dest src i h' apart rest = record {
  heap = rest.heap;
  slot = rest.slot;
  others = λ x out.
      rest.others x (ground arith) ∙ update_other h.words dest (h.words src) x (ground arith);
  copied = at i rest.copied;
  same = rest.same;
}
  where
    at :
        (i : ℕ)
        → (i - 1 < count
            → h'.words (dest + 4 + (i - 1) * 4)
              ≡ update h.words dest (h.words src) (src + 4 + (i - 1) * 4))
        → i < suc count
        → h'.words (dest + i * 4) ≡ h.words (src + i * 4)
    at zero next few =
        let first : dest + zero * 4 ≡ dest = omega arith in
        let first' : src + zero * 4 ≡ src = omega arith in
        rw (first, first')
          (rest.others dest (inl (omega arith)) ∙ update_self h.words dest (h.words src))
    at (suc j) next few =
        let place : dest + suc j * 4 ≡ dest + 4 + (suc j - 1) * 4 = omega arith in
        let place' : src + suc j * 4 ≡ src + 4 + (suc j - 1) * 4 = omega arith in
        rw (place, place')
          (next (omega arith)
            ∙ update_other h.words dest (h.words src) (src + 4 + (suc j - 1) * 4) (ground arith))

module _ (xs : Slots) (b f : ℕ) where
  pub copy_words-Copied :
      (count dest src i : ℕ) (h : Heap)
      → IsHeap h xs
      → InUse h xs b f
      → b + 8 ≤ dest
      → dest + count * 4 ≤ f
      → h.first_slot ≤ src
      → src + count * 4 ≤ h.program_break
      → (dest + count * 4 ≤ src) ⊎ (src + count * 4 ≤ dest)
      → Ends (λ _ h'. Copied h xs b f count dest src i h') (copy_words count dest src h)
  unfolding copy_words
  copy_words-Copied zero dest src i h is use_ low high low' high' apart = record {
    heap = is;
    slot = use_;
    others = λ x _. refl;
    copied = λ few. absurd (omega arith);
    same = (refl, refl, refl);
  }
  copy_words-Copied (suc count) dest src i h is use_ low high low' high' apart =
      let starts = use_.low in
      let ends = use_.top in
      let word = h.words src in
      let stored = store_lem dest word h (omega arith) (omega arith) in
      let h₁ = record h { words = update h.words dest word } in
      let kept : IsHeap h₁ xs × InUse h₁ xs b f =
        subst (λ r. Ends (λ _ h'. IsHeap h' xs × InUse h' xs b f) r) stored
          (store-InUse h xs b f dest word is use_ low (omega arith)) in
      rw (load_lem src h low' (omega arith), ◌>>=◌, stored)
        (Ends-mono (λ _ h'. Copied h₁ xs b f count (dest + 4) (src + 4) (i - 1) h')
          (λ _ h'. Copied h xs b f (suc count) dest src i h')
          (copy_words count (dest + 4) (src + 4) h₁)
          (λ _ h' rest. Copied-step h xs b f count dest src i h' apart rest)
          (copy_words-Copied count (dest + 4) (src + 4) (i - 1) h₁ kept.0 kept.1 (omega arith)
            (omega arith) (omega arith) (omega arith) (ground arith)))
