-- ===== src/Rtl/Memory/Use.antt =====
-- The slot that `rtl_alloc` uses is cut from the free list.
use mette.Base.{
  ℕ, ◌+◌, ◌*◌, ◌≤◌, ◌<◌, ◌≡◌, refl, sym, ◌∙◌, arith, [], ◌∷◌, ◌++◌, ltb, Bool-cases, inl, inr,
  ltb→lt, true, false,
}
use mathlib.Core.Path.{subst}
use mette.Rtl.Arena.{Heap, done, ◌>>=◌, ◌>>◌}
use mette.Rtl.Memory.{unlink, split, use_slot}
use mette.Rtl.Memory.Chain.{
  Slots, Seg, Layout, last_addr, behind-le, Layout_mono, Layout-append_left, Layout-append_right,
  Seg-frame, Seg-cut,
}
use mette.Rtl.Memory.State.{limit, load_lem, plus_units_lem}
use mette.Rtl.Memory.Spec.{cut_end, leftover, Outside}
use mette.Rtl.Memory.Links.{SameArena}
use mette.Rtl.Memory.Take.{
  split_words, split_lem, unlink_lem, unlinked, unlinked-Unlinked, split_slot, split_next,
  split_rest, split_rest_next, split_below, split_above,
}

-- The heap after `n` bytes of the slot of `b` and `e` are taken.
pub record Taken (h : Heap) (n : ℕ) (pre : Slots) (b e : ℕ) (post : Slots) (h' : Heap)
    : Type 0 where
  pub chain : Seg h'.words h'.free_anchor (pre ++ (leftover n b e ++ post)) 0
  pub end : h'.words b ≡ cut_end n b e
  pub others : (x : ℕ) → Outside x (pre ++ (b, e) ∷ post) → h'.words x ≡ h.words x
  pub same : SameArena h h'

pub Outside-append : (x : ℕ) (xs ys : Slots) → Outside x (xs ++ ys) → Outside x xs × Outside x ys
Outside-append x [] ys out = (tt, out)
Outside-append x (s ∷ xs) ys out = let (a, b) = Outside-append x xs ys out.1 in ((out.0, a), b)

module _ (h : Heap) (lo units b e : ℕ) (pre post : Slots) (low : h.first_slot ≤ lo)
    (within : h.program_break ≤ limit) (some_units : 0 < units) (few : units ≤ 0xFFFFFF)
    (l : Layout lo h.program_break (pre ++ (b, e) ∷ post))
    (s : Seg h.words h.free_anchor (pre ++ (b, e) ∷ post) 0) (large : b + units * 8 ≤ e) where
  abbrev bytes : ℕ
  bytes = units * 8

  use_whole :
      ltb (b + bytes + 8) e ≡ false
      → (h' : Heap) × (use_slot units (last_addr 0 pre) b h ≡ done (b + 8) h')
        × Taken h bytes pre b e post h'
  unfolding use_slot
  use_whole whole =
      let left = Layout-append_left lo h.program_break pre ((b, e) ∷ post) l in
      let right = Layout-append_right lo h.program_break pre ((b, e) ∷ post) l in
      let grows = behind-le lo h.program_break pre left in
      let (q, before, after) = Seg-cut h.words h.free_anchor 0 pre ((b, e) ∷ post) s in
      let to_b = subst (λ (x : ℕ). Seg h.words h.free_anchor pre x) after.0 before in
      let end = load_lem b h (omega arith) (omega arith) in
      let sum = plus_units_lem b units (omega arith) few in
      let sum_8 = plus_units_lem (b + bytes) 1 (omega arith) (omega arith) in
      let run = unlink_lem lo b pre h low (omega arith) (omega arith) within left in
      let rest =
        Layout_mono (e + 1) h.program_break (b + 8) h.program_break post (omega arith) (omega arith)
          right.4 in
      let off = unlinked-Unlinked lo h.program_break b pre post h left right.0 rest to_b after.2 in
      (
        unlinked pre b h,
        rw (end, ◌>>=◌, after.1, sum, sum_8, whole) run,
        record {
          chain = rw whole off.chain;
          end = rw whole (off.slot ∙ after.1);
          others = λ x out.
              let (in_pre, in_rest) = Outside-append x pre ((b, e) ∷ post) out in
              off.others x (ground arith) in_pre;
          same = off.same;
        },
      )

  use_part :
      ltb (b + bytes + 8) e ≡ true
      → (h' : Heap) × (use_slot units (last_addr 0 pre) b h ≡ done (b + 8) h')
        × Taken h bytes pre b e post h'
  unfolding use_slot
  use_part part =
      let room = ltb→lt (b + bytes + 8) e part in
      let left = Layout-append_left lo h.program_break pre ((b, e) ∷ post) l in
      let right = Layout-append_right lo h.program_break pre ((b, e) ∷ post) l in
      let grows = behind-le lo h.program_break pre left in
      let (q, before, after) = Seg-cut h.words h.free_anchor 0 pre ((b, e) ∷ post) s in
      let to_b = subst (λ (x : ℕ). Seg h.words h.free_anchor pre x) after.0 before in
      let c = b + bytes in
      let wide : b + 8 ≤ c = omega arith in
      let words' = split_words h.words b c in
      let hs = record h { words = words' } in
      let end = load_lem b h (omega arith) (omega arith) in
      let sum = plus_units_lem b units (omega arith) few in
      let sum_8 = plus_units_lem (b + bytes) 1 (omega arith) (omega arith) in
      let cut = split_lem b c h (omega arith) wide (omega arith) in
      let test : use_slot units (last_addr 0 pre) b h
          ≡ (split b c >> unlink (last_addr 0 pre) b) h =
        rw (end, ◌>>=◌, after.1, sum, sum_8, part) refl in
      let run = unlink_lem lo b pre hs low (omega arith) (omega arith) within left in
      let to_b' =
        Seg-frame h.words words' lo h.program_break h.free_anchor b pre left to_b
          (λ x _ below. split_below h.words b c wide x (omega arith)) in
      let after' =
        Seg-frame h.words words' (e + 1) h.program_break (h.words (b + 4)) 0 post right.4 after.2
          (λ x high _. split_above h.words b c wide x (omega arith)) in
      let rest' : Seg words' c ((c, e) ∷ post) 0 = (
        refl,
        split_rest h.words b c wide ∙ after.1,
        subst (λ (x : ℕ). Seg words' x post 0) (sym (split_rest_next h.words b c wide)) after',
      ) in
      let rest'' : Seg words' (words' (b + 4)) ((c, e) ∷ post) 0 =
        subst (λ (x : ℕ). Seg words' x ((c, e) ∷ post) 0) (sym (split_next h.words b c wide))
          rest' in
      let off =
        unlinked-Unlinked lo h.program_break b pre ((c, e) ∷ post) hs left right.0
          (omega arith, omega arith, omega arith, right.3, right.4) to_b' rest'' in
      (
        unlinked pre b hs,
        test ∙ (rw (cut, ◌>>=◌) run),
        record {
          chain = rw part off.chain;
          end = rw part (off.slot ∙ split_slot h.words b c wide);
          others = λ x out.
              let (in_pre, in_rest) = Outside-append x pre ((b, e) ∷ post) out in
              off.others x (ground arith) in_pre ∙ (ground arith);
          same = off.same;
        },
      )

  pub use_slot-Taken :
      (h' : Heap) × (use_slot units (last_addr 0 pre) b h ≡ done (b + 8) h')
      × Taken h bytes pre b e post h'
  use_slot-Taken = elim (Bool-cases (ltb (b + bytes + 8) e)) [
    | inl part ↦ use_part part
    | inr whole ↦ use_whole whole
  ]
