-- ===== src/Rtl/Realloc/Absorb.antt =====
-- The walk of `rtl_realloc` for a free slot behind the slot: it stops before it reaches one.
use mette.Base.{
  ℕ, zero, suc, ◌+◌, ◌-◌, ◌*◌, ◌/◌, ◌^◌, u32, lt→leb-false, ◌≤◌, ◌<◌, ◌≡◌, refl, ◌∙◌, arith, [],
  ◌∷◌, length, ne→==-false, lt→ltb, le→ltb-false,
}
use mathlib.Core.Path.{subst}
use mette.Rtl.Arena.{Heap, done, ◌>>=◌}
use mette.Rtl.Memory.{walk_fuel, units_of}
use mette.Rtl.Memory.Chain.{Slots, Seg, Layout, behind, behind-le, Seg-cut}
use mette.Rtl.Memory.State.{IsHeap, load_lem, plus_units_lem}
use mette.Rtl.Memory.Align.{units_of-pos}
use mette.Rtl.Memory.Alloc.{length-lt-walk_fuel}
use mette.Rtl.Memory.Place.{Apart-Place}
use mette.Rtl.Memory.Free.{InUse}
use mette.Rtl.Realloc.{absorb, place_data, resize_slot, rtl_realloc}

module _ (h : Heap) (a e : ℕ) (low : h.first_slot ≤ a) (wide : a + 8 ≤ e)
    (top : e ≤ h.program_break) (slot : h.words a ≡ e) where
  absorb-behind :
      (k prev q : ℕ) (post : Slots)
      → Layout e h.program_break post
      → Seg h.words q post 0
      → absorb (suc k) a prev q h ≡ done tt h
  unfolding absorb
  absorb-behind k prev q [] l s = rw s refl
  absorb-behind k prev q ((c, f) ∷ post) l s =
      rw (s.0, ne→==-false c 0 (omega arith), le→ltb-false c a (omega arith)) refl

  absorb-before :
      (k prev c : ℕ)
      → h.first_slot ≤ c
      → 0 < c
      → c + 8 ≤ h.program_break
      → c < a
      → absorb (suc k) a prev c h ≡ absorb k a c (h.words (c + 4)) h
  unfolding absorb
  absorb-before k prev c c_low pos c_top before =
      let end = load_lem a h low (omega arith) in
      let next = load_lem (c + 4) h (omega arith) (omega arith) in
      rw (ne→==-false c 0 (omega arith), lt→ltb c a before)
        (rw (end, ◌>>=◌, slot, ne→==-false e c (omega arith), next, ◌>>=◌) refl)

  absorb-place :
      (k prev p q lo : ℕ) (pre post : Slots)
      → h.first_slot ≤ lo
      → Layout lo h.program_break pre
      → behind lo pre ≤ a + 1
      → Layout e h.program_break post
      → Seg h.words p pre q
      → Seg h.words q post 0
      → length pre < k
      → absorb k a prev p h ≡ done tt h
  absorb-place zero prev p q lo pre post at l ends l' s t fuel = absurd (omega arith)
  absorb-place (suc k) prev p q lo [] post at l ends l' s t fuel =
      rw s (absorb-behind k prev q post l' t)
  absorb-place (suc k) prev p q lo ((c, f) ∷ pre) post at l ends l' s t fuel =
      let grows = behind-le (f + 1) h.program_break pre l.4 in
      rw s.0 (
        absorb-before k prev c (omega arith) l.1 (omega arith) (omega arith)
        ∙ absorb-place k c (h.words (c + 4)) q (f + 1) pre post (omega arith) l.4 ends l' s.2 t
            (omega arith))

-- The free slot behind the slot is never found: the loop runs while the free slot is before it.
pub absorb-same :
    (h : Heap) (xs : Slots) (a e : ℕ)
    → IsHeap h xs
    → InUse h xs a e
    → absorb walk_fuel a 0 h.free_anchor h ≡ done tt h
absorb-same h xs a e is use_ =
    let low = use_.low in
    let place =
      Apart-Place h.first_slot h.program_break a e xs is.layout use_.apart (omega arith) in
    let (q, before, after) =
      Seg-cut h.words h.free_anchor 0 place.pre place.post
        (subst (λ t. Seg h.words h.free_anchor t 0) place.parts is.chain) in
    let rounds =
      length-lt-walk_fuel h.first_slot h.program_break place.pre place.before is.within in
    absorb-place h a e low use_.wide use_.top use_.slot walk_fuel 0 h.free_anchor q h.first_slot
      place.pre place.post (omega arith) place.before place.ends place.after before after rounds

-- `rtl_realloc` of a slot in use comes to its end with the heap as it was.
pub rtl_realloc-place_data :
    (sys_brk : ℕ → ℕ → ℕ) (h : Heap) (xs : Slots) (a e size : ℕ)
    → IsHeap h xs
    → InUse h xs a e
    → 0 < size
    → units_of size ≤ 0xFFFFFF
    → rtl_realloc sys_brk (a + 8) size h
      ≡ place_data sys_brk size a (a + 8) (units_of size) (u32 (e + 2 ^ 32 - a) / 8 * 8) h
unfolding rtl_realloc resize_slot
rtl_realloc-place_data sys_brk h xs a e size is use_ pos few =
    let low = use_.low in
    let top = use_.top in
    let wide = use_.wide in
    let within = is.within in
    let some_units = units_of-pos size in
    let this : u32 (a + 8 + 2 ^ 32 - 8) ≡ a = omega arith in
    let end = load_lem a h low (omega arith) in
    let sum = plus_units_lem a (units_of size) (omega arith) few in
    rw (ne→==-false (a + 8) 0 (omega arith), ne→==-false size 0 (omega arith), this)
      (rw
        (
          end,
          ◌>>=◌,
          le→ltb-false 0xFFFFFF (units_of size) few,
          sum,
          lt→leb-false (a + units_of size * 8) a (omega arith),
        )
        (rw (absorb-same h xs a e is use_, ◌>>=◌, use_.slot) refl))
