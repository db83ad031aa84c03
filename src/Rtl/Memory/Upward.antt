-- ===== src/Rtl/Memory/Upward.antt =====
-- `rtl_free`: the slot is put behind the free slots before it.
use mette.Base.{
  ℕ, ◌+◌, ◌≤◌, ◌<◌, ◌≡◌, ◌≢◌, refl, sym, ap, ◌∙◌, inl, inr, arith, [], ◌∷◌, ◌++◌, ◌==◌, ne→==-false,
  ==-refl, ==→eq, Bool-cases,
}
use mathlib.Core.Path.{subst}
use mathlib.Core.List.{append_assoc}
use mette.Rtl.Arena.{Heap, update, ◌>>=◌}
use mette.Rtl.Memory.{merge_up}
use mette.Rtl.Memory.Chain.{
  Slots, Seg, Layout, behind, last_addr, behind-le, Layout-append, Layout-append_left,
  Layout-append_right, Seg-append, Seg-frame, Seg-cut,
}
use mette.Rtl.Memory.State.{Ends, load_lem, store_lem}
use mette.Rtl.Memory.Spec.{join, give_back, give_back-append, give_back-touching, Outside}
use mette.Rtl.Memory.Links.{SameArena, update_other, update_self}
use mette.Rtl.Memory.Place.{Snoc, snoc, none_before, last_before, last_addr-snoc, behind-snoc}
use mette.Rtl.Memory.Merge.{Open, Around}
use mette.Rtl.Memory.Use.{Outside-append}

-- The slot is in the free list, joined with the slot before it if they touch: it starts at `s`
-- then, behind the slots `front`.
pub record IsUpward (h : Heap) (lo : ℕ) (pre : Slots) (a e q : ℕ) (post : Slots) (s : ℕ) (h' : Heap)
    : Type 0 where
  pub front : Slots
  pub is : Open h' front s e q post
  pub around : Around lo h.program_break front s e post
  pub list : give_back (a, e) (pre ++ post) ≡ front ++ join (s, e) post
  pub in_block : (x : ℕ) → Outside x pre → Outside x ((a, e) ∷ []) → (x ≢ s) × (x ≢ s + 4)
  pub others : (x : ℕ) → Outside x pre → h'.words x ≡ h.words x
  pub same : SameArena h h'

module _ (h : Heap) (lo a e q : ℕ) (post : Slots) (low : h.first_slot ≤ lo) (lo_a : lo ≤ a)
    (pos : 0 < a) (wide : a + 8 ≤ e) (top : e ≤ h.program_break) (slot : h.words a ≡ e)
    (after_layout : Layout e h.program_break post) (after : Seg h.words q post 0) where
  merge_up-first : h.free_anchor ≡ q → Ends (IsUpward h lo [] a e q post) (merge_up 0 a h)
  unfolding merge_up
  merge_up-first anchor = record {
    front = [];
    is = record { before = refl; slot = slot; after = after };
    around = record {
      front_layout = tt;
      above = lo_a;
      low = lo_a;
      pos = pos;
      wide = wide;
      top = top;
      post_layout = after_layout;
    };
    list = give_back-append lo h.program_break a e [] post tt lo_a (omega arith) after_layout;
    in_block = λ x _ out. ground arith;
    others = λ x _. refl;
    same = (refl, refl, refl);
  }

  -- The last slot before it, from `c` to `f`.
  module _ (c f : ℕ) (pre : Slots) (l : Layout lo h.program_break pre) (above : behind lo pre ≤ c)
      (c_pos : 0 < c) (c_wide : c + 8 ≤ f) (gap : f ≤ a) (before : Seg h.words h.free_anchor pre c)
      (c_slot : h.words c ≡ f) where
    grows : lo ≤ behind lo pre
    grows = behind-le lo h.program_break pre l

    merge_up-apart : f ≢ a → Ends (IsUpward h lo (pre ++ (c, f) ∷ []) a e q post) (merge_up c a h)
    unfolding merge_up
    merge_up-apart ne =
        let up = grows in
        let g = record h { words = update h.words (c + 4) a } in
        let c_slot' : g.words c ≡ f = update_other h.words (c + 4) a c (omega arith) ∙ c_slot in
        let front = pre ++ (c, f) ∷ [] in
        let front_l : Layout lo h.program_break front =
          Layout-append lo h.program_break pre ((c, f) ∷ []) l
            (above, c_pos, c_wide, omega arith, tt) in
        let behind_f = behind-snoc lo c f pre in
        rw
          (
            ne→==-false c 0 (omega arith),
            store_lem (c + 4) a h (omega arith) (omega arith),
            ◌>>=◌,
            load_lem c g (omega arith) (omega arith),
            ◌>>=◌,
            c_slot',
            ne→==-false f a ne,
          )
          (record {
            front = front;
            is = record {
              before =
                  Seg-append g.words h.free_anchor c a pre ((c, f) ∷ [])
                    (Seg-frame h.words g.words lo h.program_break h.free_anchor c pre l before
                      (λ b _ below. update_other h.words (c + 4) a b (omega arith)))
                    (refl, c_slot', update_self h.words (c + 4) a);
              slot = update_other h.words (c + 4) a a (omega arith) ∙ slot;
              after =
                  Seg-frame h.words g.words e h.program_break q 0 post after_layout after
                    (λ b high _. update_other h.words (c + 4) a b (omega arith));
            };
            around = record {
              front_layout = front_l;
              above = omega arith;
              low = lo_a;
              pos = pos;
              wide = wide;
              top = top;
              post_layout = after_layout;
            };
            list =
                give_back-append lo h.program_break a e front post front_l (omega arith)
                  (omega arith) after_layout;
            in_block = λ x _ out. ground arith;
            others = λ x out.
                let (_, in_c) = Outside-append x pre ((c, f) ∷ []) out in
                update_other h.words (c + 4) a x (ground arith);
            same = (refl, refl, refl);
          })

  -- The last slot before it, from `c` to `a`.
  merge_up-touching :
      (c : ℕ) (pre : Slots)
      → Layout lo h.program_break pre
      → behind lo pre ≤ c
      → 0 < c
      → c + 8 ≤ a
      → Seg h.words h.free_anchor pre c
      → h.words c ≡ a
      → Ends (IsUpward h lo (pre ++ (c, a) ∷ []) a e q post) (merge_up c a h)
  unfolding merge_up
  merge_up-touching c pre l above c_pos c_wide before c_slot =
      let up = behind-le lo h.program_break pre l in
      let g = record h { words = update h.words (c + 4) a } in
      let g' = record g { words = update g.words c e } in
      let kept = λ (b : ℕ) (ne : b ≢ c) (ne' : b ≢ c + 4).
        update_other g.words c e b ne ∙ update_other h.words (c + 4) a b ne' in
      let c_slot' : g.words c ≡ a = update_other h.words (c + 4) a c (omega arith) ∙ c_slot in
      let slot' : g.words a ≡ e = update_other h.words (c + 4) a a (omega arith) ∙ slot in
      rw
        (
          ne→==-false c 0 (omega arith),
          store_lem (c + 4) a h (omega arith) (omega arith),
          ◌>>=◌,
          load_lem c g (omega arith) (omega arith),
          ◌>>=◌,
          c_slot',
          ==-refl a,
          load_lem a g (omega arith) (omega arith),
          ◌>>=◌,
          slot',
          store_lem c e g (omega arith) (omega arith),
          ◌>>=◌,
        )
        (record {
          front = pre;
          is = record {
            before =
                Seg-frame h.words g'.words lo h.program_break h.free_anchor c pre l before
                  (λ b _ below. kept b (omega arith) (omega arith));
            slot = update_self g.words c e;
            after =
                Seg-frame h.words g'.words e h.program_break q 0 post after_layout after
                  (λ b high _. kept b (omega arith) (omega arith));
          };
          around = record {
            front_layout = l;
            above = above;
            low = omega arith;
            pos = c_pos;
            wide = omega arith;
            top = top;
            post_layout = after_layout;
          };
          list =
              ap (give_back (a, e)) (append_assoc pre ((c, a) ∷ []) post)
              ∙ give_back-touching lo h.program_break c a e pre post l above (omega arith);
          in_block =
              λ x out out'. let (_, in_c) = Outside-append x pre ((c, a) ∷ []) out in ground arith;
          others = λ x out.
              let (_, in_c) = Outside-append x pre ((c, a) ∷ []) out in
              kept x (ground arith) (ground arith);
          same = (refl, refl, refl);
        })

  pub merge_up-Upward :
      (pre : Slots)
      → Layout lo h.program_break pre
      → behind lo pre ≤ a + 1
      → Seg h.words h.free_anchor pre q
      → Ends (IsUpward h lo pre a e q post) (merge_up (last_addr 0 pre) a h)
  merge_up-Upward pre l ends before = by_last pre (snoc pre) l ends before
    where
      by_last :
          (pre : Slots)
          → Snoc pre
          → Layout lo h.program_break pre
          → behind lo pre ≤ a + 1
          → Seg h.words h.free_anchor pre q
          → Ends (IsUpward h lo pre a e q post) (merge_up (last_addr 0 pre) a h)
      by_last [] none_before l ends before = merge_up-first before
      by_last xs (last_before pre c f) l ends before =
          let left = Layout-append_left lo h.program_break pre ((c, f) ∷ []) l in
          let right = Layout-append_right lo h.program_break pre ((c, f) ∷ []) l in
          let at_end = behind-snoc lo c f pre in
          let (r, to_c, from_c) = Seg-cut h.words h.free_anchor q pre ((c, f) ∷ []) before in
          let to_c' = subst (λ (x : ℕ). Seg h.words h.free_anchor pre x) from_c.0 to_c in
          rw (last_addr-snoc 0 c f pre) (elim (Bool-cases (f == a)) [
            | inl equal ↦
                let same = ==→eq f a equal in
                subst
                  (λ (x : ℕ). Ends (IsUpward h lo (pre ++ (c, x) ∷ []) a e q post) (merge_up c a h))
                  (sym same)
                  (merge_up-touching c pre left right.0 right.1 (omega arith) to_c'
                    (from_c.1 ∙ same))
            | inr differ ↦
                merge_up-apart c f pre left right.0 right.1 right.2 (omega arith) to_c' from_c.1
                  (λ same. ground (arith, ==-refl f))
          ])
