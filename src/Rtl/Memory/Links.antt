-- ===== src/Rtl/Memory/Links.antt =====
-- How a slot is taken off the free list, and put on it.
use mette.Base.{
  ℕ, ◌+◌, ◌≤◌, ◌≡◌, ◌≢◌, refl, sym, arith, [], ◌∷◌, ◌++◌, ◌==◌, if◌then◌else◌, ne→==-false, ==-refl,
}
use mathlib.Core.Path.{subst}
use mette.Rtl.Arena.{Heap, done, update}
use mette.Rtl.Memory.{set_link}
use mette.Rtl.Memory.Chain.{
  Slots, Seg, Layout, behind, last_addr, last_addr_bounds, Seg-append, Seg-frame, Seg-relink,
}
use mette.Rtl.Memory.Spec.{Outside}
use mette.Rtl.Memory.State.{store_lem}

pub update_other : (words : ℕ → ℕ) (a v b : ℕ) → b ≢ a → update words a v b ≡ words b
update_other words a v b ne = rw (ne→==-false b a ne) refl

pub update_self : (words : ℕ → ℕ) (a v : ℕ) → update words a v a ≡ v
update_self words a v = rw (==-refl a) refl

-- The heap in which `next` follows `prev`, or the anchor.
abbrev pub linked : ℕ → ℕ → Heap → Heap
linked prev next h =
    if prev == 0
    then record h { free_anchor = next }
    else record h { words = update h.words (prev + 4) next }

pub set_link-linked :
    (lo next : ℕ) (pre : Slots) (h : Heap)
    → h.first_slot ≤ lo
    → Layout lo h.program_break pre
    → set_link (last_addr 0 pre) next h ≡ done tt (linked (last_addr 0 pre) next h)
unfolding set_link
set_link-linked lo next [] h low l = refl
set_link-linked lo next ((a, e) ∷ xs) h low l =
    let bounds = last_addr_bounds lo h.program_break 0 a e xs l in
    let last = last_addr 0 ((a, e) ∷ xs) in
    rw (ne→==-false last 0 (omega arith)) (store_lem (last + 4) next h (omega arith) (omega arith))

pub linked_words :
    (prev next : ℕ) (h : Heap)
    → prev ≢ 0
    → linked prev next h ≡ record h { words = update h.words (prev + 4) next }
linked_words prev next h ne = rw (ne→==-false prev 0 ne) refl

pub linked-Seg :
    (lo hi q next : ℕ) (pre rest : Slots) (h : Heap)
    → Layout lo hi pre
    → Layout (behind lo pre) hi rest
    → Seg h.words h.free_anchor pre q
    → Seg h.words next rest 0
    → Seg
        (linked (last_addr 0 pre) next h).words
        (linked (last_addr 0 pre) next h).free_anchor
        (pre ++ rest)
        0
linked-Seg lo hi q next [] rest h l k s t = t
linked-Seg lo hi q next ((a, e) ∷ xs) rest h l k s t =
    let bounds = last_addr_bounds lo hi 0 a e xs l in
    let last = last_addr 0 ((a, e) ∷ xs) in
    subst (λ (g : Heap). Seg g.words g.free_anchor ((a, e) ∷ (xs ++ rest)) 0)
      (sym (linked_words last next h (omega arith)))
      (Seg-append (update h.words (last + 4) next) h.free_anchor next 0 ((a, e) ∷ xs) rest
        (Seg-relink h.words lo hi 0 h.free_anchor q next a e xs l s)
        (Seg-frame h.words (update h.words (last + 4) next) (behind lo ((a, e) ∷ xs)) hi next 0 rest
          k t (λ b high _. update_other h.words (last + 4) next b (omega arith))))

-- Words outside the slots before are as they were.
pub linked_other :
    (lo hi next x : ℕ) (pre : Slots) (h : Heap)
    → Layout lo hi pre
    → behind lo pre ≤ x
    → (linked (last_addr 0 pre) next h).words x ≡ h.words x
linked_other lo hi next x [] h l above = refl
linked_other lo hi next x ((a, e) ∷ xs) h l above =
    let bounds = last_addr_bounds lo hi 0 a e xs l in
    let last = last_addr 0 ((a, e) ∷ xs) in
    rw (ne→==-false last 0 (omega arith)) (update_other h.words (last + 4) next x (omega arith))

-- The variables and the program break, which stay.
abbrev pub SameArena : Heap → Heap → Type 0
SameArena h h' =
    (h'.first_slot ≡ h.first_slot)
    × (h'.arena_brk ≡ h.arena_brk)
    × (h'.program_break ≡ h.program_break)

pub linked-SameArena : (prev next : ℕ) (h : Heap) → SameArena h (linked prev next h)
linked-SameArena prev next h = ground arith

Outside-last :
    (lo hi prev x a e : ℕ) (xs : Slots)
    → Layout lo hi ((a, e) ∷ xs)
    → Outside x ((a, e) ∷ xs)
    → x ≢ last_addr prev ((a, e) ∷ xs) + 4
Outside-last lo hi prev x a e [] l out same = ground arith
Outside-last lo hi prev x a e ((c, f) ∷ xs) l out same =
    Outside-last (e + 1) hi a x c f xs l.4 out.1 same

pub linked-Outside :
    (lo hi next x : ℕ) (pre : Slots) (h : Heap)
    → Layout lo hi pre
    → Outside x pre
    → (linked (last_addr 0 pre) next h).words x ≡ h.words x
linked-Outside lo hi next x [] h l out = refl
linked-Outside lo hi next x ((a, e) ∷ xs) h l out =
    let bounds = last_addr_bounds lo hi 0 a e xs l in
    let last = last_addr 0 ((a, e) ∷ xs) in
    rw (ne→==-false last 0 (omega arith))
      (update_other h.words (last + 4) next x (Outside-last lo hi 0 x a e xs l out))
