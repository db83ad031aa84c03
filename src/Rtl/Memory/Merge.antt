-- ===== src/Rtl/Memory/Merge.antt =====
-- `rtl_free` at the place of the slot: it joins the slots before and behind it.
use mette.Base.{
  ℕ, ◌+◌, ◌≤◌, ◌<◌, ◌≡◌, ◌≢◌, refl, sym, ◌∙◌, inl, inr, arith, [], ◌∷◌, ◌++◌, ◌==◌, ne→==-false,
  ==-refl, ==→eq, Bool-cases,
}
use mathlib.Core.Path.{subst}
use mette.Rtl.Arena.{Heap, done, load, store, update, ◌>>=◌}
use mette.Rtl.Memory.{merge_down, take_in}
use mette.Rtl.Memory.Chain.{Slots, Seg, Layout, behind, Seg-append, Seg-frame}
use mette.Rtl.Memory.State.{Ends, load_lem, store_lem}
use mette.Rtl.Memory.Spec.{join}
use mette.Rtl.Memory.Links.{SameArena, update_other, update_self}

-- The free list up to a slot at `s`, which ends at `e`, and from `q` on the slots `post`.
pub record Open (h : Heap) (front : Slots) (s e q : ℕ) (post : Slots) : Type 0 where
  pub before : Seg h.words h.free_anchor front s
  pub slot : h.words s ≡ e
  pub after : Seg h.words q post 0

-- The slots `front` and `post` around the slot from `s` to `e`, by their addresses.
pub record Around (lo hi : ℕ) (front : Slots) (s e : ℕ) (post : Slots) : Type 0 where
  pub front_layout : Layout lo hi front
  pub above : behind lo front ≤ s
  pub low : lo ≤ s
  pub pos : 0 < s
  pub wide : s + 8 ≤ e
  pub top : e ≤ hi
  pub post_layout : Layout e hi post

-- The heap after the slot at `s` joins what follows it; only the words of that slot change.
pub record Joined (h : Heap) (front : Slots) (s e : ℕ) (post : Slots) (h' : Heap) : Type 0 where
  pub chain : Seg h'.words h'.free_anchor (front ++ join (s, e) post) 0
  pub others : (x : ℕ) → x ≢ s → x ≢ s + 4 → h'.words x ≡ h.words x
  pub same : SameArena h h'

abbrev followed : Heap → ℕ → ℕ → Heap
followed h s q = record h { words = update h.words (s + 4) q }

followed-Open :
    (h : Heap) (lo : ℕ) (front : Slots) (s e q : ℕ) (post : Slots)
    → Open h front s e q post
    → Around lo h.program_break front s e post
    → Open (followed h s q) front s e q post
followed-Open h lo front s e q post is around =
    let above = around.above in
    let wide = around.wide in
    record {
      before =
          Seg-frame h.words (update h.words (s + 4) q) lo h.program_break h.free_anchor s front
            around.front_layout is.before
            (λ b _ below. update_other h.words (s + 4) q b (omega arith));
      slot = update_other h.words (s + 4) q s (omega arith) ∙ is.slot;
      after =
          Seg-frame h.words (update h.words (s + 4) q) e h.program_break q 0 post around.post_layout
            is.after (λ b high _. update_other h.words (s + 4) q b (omega arith));
    }

-- The slot that is behind `s` and touches it, taken in.
abbrev merged : Heap → ℕ → ℕ → ℕ → Heap
merged g s f next = record g { words = update (update g.words s f) (s + 4) next }

take_in-apart :
    (g : Heap) (s e c : ℕ)
    → g.first_slot ≤ s
    → s + 4 ≤ g.program_break
    → g.words s ≡ e
    → e ≢ c
    → take_in s c g ≡ done tt g
unfolding take_in
take_in-apart g s e c low top slot ne =
    rw (load_lem s g low top, ◌>>=◌, slot, ne→==-false e c ne) refl

take_in-touching :
    (g : Heap) (s e f : ℕ)
    → g.first_slot ≤ s
    → s + 8 ≤ e
    → e + 8 ≤ g.program_break
    → g.words s ≡ e
    → g.words e ≡ f
    → take_in s e g ≡ done tt (merged g s f (g.words (e + 4)))
unfolding take_in load store
take_in-touching g s e f low wide top slot next = ground arith

module _ (h : Heap) (lo : ℕ) (low : h.first_slot ≤ lo) (front : Slots) (s e : ℕ) where
  merge_down-last :
      Open h front s e 0 []
      → Around lo h.program_break front s e []
      → Ends (λ _ h'. Joined h front s e [] h') (merge_down s 0 h)
  unfolding merge_down join
  merge_down-last is around =
      let above = around.low in
      let wide = around.wide in
      let top = around.top in
      let open_ = followed-Open h lo front s e 0 [] is around in
      rw (store_lem (s + 4) 0 h (omega arith) (omega arith), ◌>>=◌)
        (record {
          chain =
              Seg-append (followed h s 0).words h.free_anchor s 0 front ((s, e) ∷ []) open_.before
                (refl, open_.slot, update_self h.words (s + 4) 0);
          others = λ x ne ne'. update_other h.words (s + 4) 0 x ne';
          same = (refl, refl, refl);
        })

  module _ (c f : ℕ) (post : Slots) (is : Open h front s e c ((c, f) ∷ post))
      (around : Around lo h.program_break front s e ((c, f) ∷ post)) where
    merge_down-apart :
        e ≢ c → Ends (λ _ h'. Joined h front s e ((c, f) ∷ post) h') (merge_down s c h)
    unfolding merge_down join
    merge_down-apart ne =
        let above = around.low in
        let wide = around.wide in
        let top = around.top in
        let after = around.post_layout in
        let open_ = followed-Open h lo front s e c ((c, f) ∷ post) is around in
        let g = followed h s c in
        rw
          (
            store_lem (s + 4) c h (omega arith) (omega arith),
            ◌>>=◌,
            ne→==-false c 0 (omega arith),
            take_in-apart g s e c (omega arith) (omega arith) open_.slot ne,
          )
          (record {
            chain = rw (ne→==-false e c ne) (
                Seg-append g.words h.free_anchor s 0 front ((s, e) ∷ (c, f) ∷ post) open_.before (
                  refl,
                  open_.slot,
                  subst (λ (x : ℕ). Seg g.words x ((c, f) ∷ post) 0)
                      (sym (update_self h.words (s + 4) c)) open_.after,
                ));
            others = λ x ne ne'. update_other h.words (s + 4) c x ne';
            same = (refl, refl, refl);
          })

  merge_down-touching :
      (f : ℕ) (post : Slots)
      → Open h front s e e ((e, f) ∷ post)
      → Around lo h.program_break front s e ((e, f) ∷ post)
      → Ends (λ _ h'. Joined h front s e ((e, f) ∷ post) h') (merge_down s e h)
  unfolding merge_down join
  merge_down-touching f post is around =
      let above = around.low in
      let behind_front = around.above in
      let wide = around.wide in
      let after = around.post_layout in
      let open_ = followed-Open h lo front s e e ((e, f) ∷ post) is around in
      let g = followed h s e in
      let next = g.words (e + 4) in
      let g' = merged g s f next in
      let kept = λ (b : ℕ) (ne : b ≢ s) (ne' : b ≢ s + 4).
        update_other (update g.words s f) (s + 4) next b ne' ∙ update_other g.words s f b ne in
      rw
        (
          store_lem (s + 4) e h (omega arith) (omega arith),
          ◌>>=◌,
          ne→==-false e 0 (omega arith),
          take_in-touching g s e f (omega arith) wide (omega arith) open_.slot open_.after.1,
        )
        (record {
          chain = rw (==-refl e) (
              Seg-append g'.words h.free_anchor s 0 front ((s, f) ∷ post)
                (Seg-frame g.words g'.words lo h.program_break h.free_anchor s front
                  around.front_layout open_.before
                  (λ b _ below. kept b (omega arith) (omega arith)))
                (
                  refl,
                  update_other (update g.words s f) (s + 4) next s (omega arith)
                      ∙ update_self g.words s f,
                  subst (λ (x : ℕ). Seg g'.words x post 0)
                      (sym (update_self (update g.words s f) (s + 4) next))
                      (Seg-frame g.words g'.words (f + 1) h.program_break next 0 post after.4
                        open_.after.2 (λ b high _. kept b (omega arith) (omega arith))),
                ));
          others = λ x ne ne'. kept x ne ne' ∙ update_other h.words (s + 4) e x ne';
          same = (refl, refl, refl);
        })

  pub merge_down-Joined :
      (q : ℕ) (post : Slots)
      → Open h front s e q post
      → Around lo h.program_break front s e post
      → Ends (λ _ h'. Joined h front s e post h') (merge_down s q h)
  merge_down-Joined q [] is around =
      let end : q ≡ 0 = is.after in
      subst (λ (x : ℕ). Ends (λ _ h'. Joined h front s e [] h') (merge_down s x h)) (sym end)
        (merge_down-last (subst (λ (x : ℕ). Open h front s e x []) end is) around)
  merge_down-Joined q ((c, f) ∷ post) is around =
      let at = is.after.0 in
      let is' = subst (λ (x : ℕ). Open h front s e x ((c, f) ∷ post)) at is in
      subst (λ (x : ℕ). Ends (λ _ h'. Joined h front s e ((c, f) ∷ post) h') (merge_down s x h))
        (sym at)
        (elim (Bool-cases (e == c)) [
          | inr differ ↦ merge_down-apart c f post is' around (λ same. ground (arith, ==-refl e))
          | inl equal ↦
              let same = ==→eq e c equal in
              subst
                (λ (x : ℕ).
                  Open h front s e x ((x, f) ∷ post)
                  → Around lo h.program_break front s e ((x, f) ∷ post)
                  → Ends (λ _ h'. Joined h front s e ((x, f) ∷ post) h') (merge_down s x h))
                same (merge_down-touching f post) is' around
        ])
