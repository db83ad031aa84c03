-- ===== src/Rtl/Memory/Place.antt =====
-- The place of a slot in the free list, and the walk of `rtl_free` to it.
use mette.Base.{
  ℕ, zero, suc, ◌+◌, ◌≤◌, ◌<◌, ◌≡◌, refl, ap, ◌∙◌, inl, inr, arith, [], ◌∷◌, ◌++◌, length,
  ne→==-false, lt→ltb, le→ltb-false,
}
use mette.Rtl.Arena.{Heap, done, ◌>>=◌}
use mette.Rtl.Memory.{find_place}
use mette.Rtl.Memory.Chain.{Slots, Seg, Layout, behind, last_addr, behind-le}
use mette.Rtl.Memory.State.{load_lem}
use mette.Rtl.Memory.Spec.{Apart}

-- The free slots `xs` before and behind the slot of `a` and `e`.
pub record Place (lo hi a e : ℕ) (xs : Slots) : Type 0 where
  pub pre : Slots
  pub post : Slots
  pub parts : xs ≡ pre ++ post
  pub before : Layout lo hi pre
  pub ends : behind lo pre ≤ a + 1
  pub after : Layout e hi post

pub Apart-Place :
    (lo hi a e : ℕ) (xs : Slots)
    → Layout lo hi xs
    → Apart (a, e) xs
    → lo ≤ a + 1
    → Place lo hi a e xs
Apart-Place lo hi a e [] l apart low = record {
  pre = [];
  post = [];
  parts = refl;
  before = tt;
  ends = low;
  after = tt;
}
Apart-Place lo hi a e ((c, f) ∷ xs) l (inl above, apart) low = record {
  pre = [];
  post = (c, f) ∷ xs;
  parts = refl;
  before = tt;
  ends = low;
  after = (above, l.1, l.2, l.3, l.4);
}
Apart-Place lo hi a e ((c, f) ∷ xs) l (inr below, apart) low =
    let place = Apart-Place (f + 1) hi a e xs l.4 apart (omega arith) in
    record {
      pre = (c, f) ∷ place.pre;
      post = place.post;
      parts = ap (λ t. (c, f) ∷ t) place.parts;
      before = (l.0, l.1, l.2, l.3, place.before);
      ends = place.ends;
      after = place.after;
    }

module _ (h : Heap) (a e : ℕ) (wide : a < e) where
  find_place-behind :
      (k prev q lo : ℕ) (post : Slots)
      → Layout e h.program_break post
      → Seg h.words q post 0
      → find_place (suc k) a prev q h ≡ done (prev, q) h
  unfolding find_place
  find_place-behind k prev q lo [] l s = rw s refl
  find_place-behind k prev q lo ((c, f) ∷ post) l s =
      rw (s.0, ne→==-false c 0 (omega arith), le→ltb-false c a (omega arith)) refl

  find_place-before :
      (k prev c : ℕ)
      → h.first_slot ≤ c
      → 0 < c
      → c + 8 ≤ h.program_break
      → c < a
      → find_place (suc k) a prev c h ≡ find_place k a c (h.words (c + 4)) h
  unfolding find_place
  find_place-before k prev c low pos top before =
      let next = load_lem (c + 4) h (omega arith) (omega arith) in
      rw (ne→==-false c 0 (omega arith), lt→ltb c a before) (rw (next, ◌>>=◌) refl)

  -- The walk finds the slots around the place.
  pub find_place-place :
      (k prev p q lo : ℕ) (pre post : Slots)
      → h.first_slot ≤ lo
      → Layout lo h.program_break pre
      → behind lo pre ≤ a + 1
      → Layout e h.program_break post
      → Seg h.words p pre q
      → Seg h.words q post 0
      → length pre < k
      → find_place k a prev p h ≡ done (last_addr prev pre, q) h
  find_place-place zero prev p q lo pre post low l ends l' s t fuel = absurd (omega arith)
  find_place-place (suc k) prev p q lo [] post low l ends l' s t fuel =
      rw s (find_place-behind k prev q lo post l' t)
  find_place-place (suc k) prev p q lo ((c, f) ∷ pre) post low l ends l' s t fuel =
      let grows = behind-le (f + 1) h.program_break pre l.4 in
      rw s.0 (
        find_place-before k prev c (omega arith) l.1 (omega arith) (omega arith)
        ∙ find_place-place k c (h.words (c + 4)) q (f + 1) pre post (omega arith) l.4 ends l' s.2 t
            (omega arith))

-- A list of slots is empty, or has a last slot.
pub data Snoc : Slots → Type 0 where
  none_before : Snoc []
  last_before : (xs : Slots) (c f : ℕ) → Snoc (xs ++ (c, f) ∷ [])

pub snoc : (xs : Slots) → Snoc xs
snoc [] = none_before
snoc (s ∷ xs) = more s (snoc xs)
  where
    more : (s : ℕ × ℕ) {xs : Slots} → Snoc xs → Snoc (s ∷ xs)
    more (c, f) none_before = last_before [] c f
    more s (last_before xs c f) = last_before (s ∷ xs) c f

pub last_addr-snoc : (prev c f : ℕ) (xs : Slots) → last_addr prev (xs ++ (c, f) ∷ []) ≡ c
last_addr-snoc prev c f [] = refl
last_addr-snoc prev c f ((b, g) ∷ xs) = last_addr-snoc b c f xs

pub behind-snoc : (lo c f : ℕ) (xs : Slots) → behind lo (xs ++ (c, f) ∷ []) ≡ f + 1
behind-snoc lo c f [] = refl
behind-snoc lo c f ((b, g) ∷ xs) = behind-snoc (g + 1) c f xs
