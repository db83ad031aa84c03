-- ===== src/Rtl/Memory/Take.antt =====
-- `rtl_alloc` at the slot that it uses.
use mette.Base.{ℕ, ◌+◌, ◌≤◌, ◌<◌, ◌≡◌, ◌≢◌, refl, ◌∙◌, arith, ◌++◌}
use mette.Rtl.Arena.{Heap, done, load, store, update, ◌>>=◌}
use mette.Rtl.Memory.{unlink, split}
use mette.Rtl.Memory.Chain.{Slots, Seg, Layout, behind, last_addr, Layout_mono, Seg-frame_hole}
use mette.Rtl.Memory.State.{limit, load_lem, store_lem, plus_units_lem}
use mette.Rtl.Memory.Spec.{Outside}
use mette.Rtl.Memory.Links.{
  linked, set_link-linked, linked-Seg, linked_other, linked-Outside, linked-SameArena, SameArena,
  update_other,
}

-- The words after a slot at `b` is cut at `c`.
abbrev pub split_words : (ℕ → ℕ) → ℕ → ℕ → ℕ → ℕ
split_words words b c =
    update (update (update (update words c (words b)) (c + 4) (words (b + 4))) b c) (b + 4) c

pub split_lem :
    (b c : ℕ) (h : Heap)
    → h.first_slot ≤ b
    → b + 8 ≤ c
    → c + 8 ≤ h.program_break
    → split b c h ≡ done tt (record h { words = split_words h.words b c })
unfolding split load store
split_lem b c h low wide high = ground arith

pub unlink_lem :
    (lo b : ℕ) (pre : Slots) (h : Heap)
    → h.first_slot ≤ lo
    → h.first_slot ≤ b
    → b + 8 ≤ h.program_break
    → h.program_break ≤ limit
    → Layout lo h.program_break pre
    → (let g = linked (last_addr 0 pre) (h.words (b + 4)) h in
        unlink (last_addr 0 pre) b h ≡ done (b + 8) (record g { words = update g.words (b + 4) 0 }))
unfolding unlink
unlink_lem lo b pre h low above high within l =
    let next = load_lem (b + 4) h (omega arith) (omega arith) in
    let link = set_link-linked lo (h.words (b + 4)) pre h low l in
    let g = linked (last_addr 0 pre) (h.words (b + 4)) h in
    let same = linked-SameArena (last_addr 0 pre) (h.words (b + 4)) h in
    let clear = store_lem (b + 4) 0 g (omega arith) (omega arith) in
    let sum = plus_units_lem b 1 (omega arith) (omega arith) in
    rw (next, ◌>>=◌, link, ◌>>=◌, clear, ◌>>=◌, sum) refl

-- The heap after the slot at `b`, behind the free slots `pre`, is taken off the free list: the
-- slots `rest` follow.
pub record Unlinked (h : Heap) (pre : Slots) (b : ℕ) (rest : Slots) (h' : Heap) : Type 0 where
  pub chain : Seg h'.words h'.free_anchor (pre ++ rest) 0
  pub slot : h'.words b ≡ h.words b
  pub others : (x : ℕ) → x ≢ b + 4 → Outside x pre → h'.words x ≡ h.words x
  pub same : SameArena h h'

abbrev pub unlinked : Slots → ℕ → Heap → Heap
unlinked pre b h =
    let g = linked (last_addr 0 pre) (h.words (b + 4)) h in
    record g { words = update g.words (b + 4) 0 }

pub unlinked-Unlinked :
    (lo hi b : ℕ) (pre rest : Slots) (h : Heap)
    → Layout lo hi pre
    → behind lo pre ≤ b
    → Layout (b + 8) hi rest
    → Seg h.words h.free_anchor pre b
    → Seg h.words (h.words (b + 4)) rest 0
    → Unlinked h pre b rest (unlinked pre b h)
unlinked-Unlinked lo hi b pre rest h l above k s t =
    let next = h.words (b + 4) in
    let g = linked (last_addr 0 pre) next h in
    let wider = Layout_mono (b + 8) hi (behind lo pre) hi rest (omega arith) (omega arith) k in
    record {
      chain =
          Seg-frame_hole g.words (update g.words (b + 4) 0) lo hi (b + 8) g.free_anchor pre rest l k
            (linked-Seg lo hi b next pre rest h l wider s t)
            (λ x low. update_other g.words (b + 4) 0 x (omega arith))
            (λ x high. update_other g.words (b + 4) 0 x (omega arith));
      slot =
          update_other g.words (b + 4) 0 b (omega arith) ∙ linked_other lo hi next b pre h l above;
      others =
          λ x ne out. update_other g.words (b + 4) 0 x ne ∙ linked-Outside lo hi next x pre h l out;
      same = linked-SameArena (last_addr 0 pre) next h;
    }

-- The words of a slot that is cut, and of what is left.
module _ (words : ℕ → ℕ) (b c : ℕ) (wide : b + 8 ≤ c) where
  pub split_slot : split_words words b c b ≡ c
  split_slot = ground arith

  pub split_next : split_words words b c (b + 4) ≡ c
  split_next = ground arith

  pub split_rest : split_words words b c c ≡ words b
  split_rest = ground arith

  pub split_rest_next : split_words words b c (c + 4) ≡ words (b + 4)
  split_rest_next = ground arith

  pub split_below : (x : ℕ) → x < b → split_words words b c x ≡ words x
  split_below x low = ground arith

  pub split_above : (x : ℕ) → c + 8 ≤ x → split_words words b c x ≡ words x
  split_above x high = ground arith
