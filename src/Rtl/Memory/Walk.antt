-- ===== src/Rtl/Memory/Walk.antt =====
-- The walk of `rtl_alloc` along the free list.
use mette.Base.{
  ℕ, zero, suc, ◌+◌, ◌*◌, ◌≤◌, ◌<◌, ◌≡◌, refl, ◌∙◌, arith, All, [], ◌∷◌, ◌++◌, length, ne→==-false,
  lt→ltb, le→ltb-false, lt→leb-false,
}
use mette.Rtl.Arena.{Heap, done, ◌>>=◌}
use mette.Rtl.Memory.{fits, exhausted, search_free}
use mette.Rtl.Memory.Chain.{Slots, Seg, Layout, last_addr}
use mette.Rtl.Memory.Spec.{IsSmall}
use mette.Rtl.Memory.State.{limit, load_lem, plus_units_lem}

module _ (h : Heap) (units : ℕ) (some_units : 0 < units) (few : units ≤ 0xFFFFFF)
    (within : h.program_break ≤ limit) where
  -- One round at a slot that is too small.
  search-small :
      (k prev a e lo hi : ℕ)
      → h.first_slot ≤ lo
      → hi ≤ h.program_break
      → lo ≤ a
      → 0 < a
      → a + 8 ≤ e
      → e ≤ hi
      → h.words a ≡ e
      → e < a + units * 8
      → search_free (suc k) units prev a h ≡ search_free k units a (h.words (a + 4)) h
  unfolding search_free
  search-small k prev a e lo hi low high above pos wide top is small =
      let sum = plus_units_lem a units (omega arith) few in
      let end = load_lem a h (omega arith) (omega arith) in
      let next = load_lem (a + 4) h (omega arith) (omega arith) in
      rw (
        ne→==-false a 0 (omega arith),
        sum,
        lt→leb-false (a + units * 8) a (omega arith),
        end,
        ◌>>=◌,
        is,
        sum,
        lt→ltb e (a + units * 8) small,
        next,
        ◌>>=◌,
      )

  search-large :
      (k prev a e lo hi : ℕ)
      → h.first_slot ≤ lo
      → hi ≤ h.program_break
      → lo ≤ a
      → 0 < a
      → a + 8 ≤ e
      → e ≤ hi
      → h.words a ≡ e
      → a + units * 8 ≤ e
      → search_free (suc k) units prev a h ≡ done (fits prev a) h
  unfolding search_free
  search-large k prev a e lo hi low high above pos wide top is large =
      let sum = plus_units_lem a units (omega arith) few in
      let end = load_lem a h (omega arith) (omega arith) in
      rw (
        ne→==-false a 0 (omega arith),
        sum,
        lt→leb-false (a + units * 8) a (omega arith),
        end,
        ◌>>=◌,
        is,
        sum,
        le→ltb-false e (a + units * 8) large,
      )

  -- The walk stops at the first slot that fits.
  pub search_free-fits :
      (k prev p lo a e : ℕ) (pre post : Slots)
      → h.first_slot ≤ lo
      → Layout lo h.program_break (pre ++ (a, e) ∷ post)
      → Seg h.words p (pre ++ (a, e) ∷ post) 0
      → All (IsSmall (units * 8)) pre
      → a + units * 8 ≤ e
      → length pre < k
      → search_free k units prev p h ≡ done (fits (last_addr prev pre) a) h
  search_free-fits zero prev p lo a e pre post low l s small large fuel = absurd (omega arith)
  search_free-fits (suc k) prev p lo a e [] post low l s small large fuel =
      rw s.0
        (search-large k prev a e lo h.program_break low (omega arith) l.0 l.1 l.2 l.3 s.1 large)
  search_free-fits (suc k) prev p lo a e ((c, f) ∷ pre) post low l s small large fuel = rw s.0 (
      search-small k prev c f lo h.program_break low (omega arith) l.0 l.1 l.2 l.3 s.1 small.0
      ∙ search_free-fits k c (h.words (c + 4)) (f + 1) a e pre post (omega arith) l.4 s.2 small.1
          large (omega arith))

  -- Where none fits, the walk ends behind the last slot.
  pub search_free-exhausted :
      (k prev p lo : ℕ) (xs : Slots)
      → h.first_slot ≤ lo
      → Layout lo h.program_break xs
      → Seg h.words p xs 0
      → All (IsSmall (units * 8)) xs
      → length xs < k
      → search_free k units prev p h ≡ done (exhausted (last_addr prev xs)) h
  unfolding search_free
  search_free-exhausted zero prev p lo xs low l s small fuel = absurd (omega arith)
  search_free-exhausted (suc k) prev p lo [] low l s small fuel = rw s refl
  search_free-exhausted (suc k) prev p lo ((c, f) ∷ xs) low l s small fuel = rw s.0 (
      search-small k prev c f lo h.program_break low (omega arith) l.0 l.1 l.2 l.3 s.1 small.0
      ∙ search_free-exhausted k c (h.words (c + 4)) (f + 1) xs (omega arith) l.4 s.2 small.1
          (omega arith))
