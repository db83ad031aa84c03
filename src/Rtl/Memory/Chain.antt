-- ===== src/Rtl/Memory/Chain.antt =====
-- The free list of the allocator as a list of slots, each with its address and its end.
use mette.Base.{ℕ, ◌+◌, ◌≤◌, ◌<◌, ◌≡◌, refl, sym, ◌∙◌, arith, List, [], ◌∷◌, ◌++◌}
use mathlib.Core.Path.{subst}
use mette.Rtl.Arena.{update}

abbrev pub Slots : Type 0
Slots = List (ℕ × ℕ)

-- From `p` the `next_free` pointers lead through the slots `xs` to `q`.
abbrev pub Seg : (ℕ → ℕ) → ℕ → Slots → ℕ → Type 0
Seg words p [] q = p ≡ q
Seg words p ((a, e) ∷ xs) q = (p ≡ a) × (words a ≡ e) × Seg words (words (a + 4)) xs q

-- The slots lie between `lo` and `hi` in the order of their addresses, no two of them touch, and
-- each has at least one unit.
abbrev pub Layout : ℕ → ℕ → Slots → Type 0
Layout lo hi [] = Unit
Layout lo hi ((a, e) ∷ xs) = (lo ≤ a) × (0 < a) × (a + 8 ≤ e) × (e ≤ hi) × Layout (e + 1) hi xs

-- The least address for a slot behind the slots `xs`.
abbrev pub behind : ℕ → Slots → ℕ
behind lo [] = lo
behind lo ((a, e) ∷ xs) = behind (e + 1) xs

-- The address of the last slot, or `prev` if there is none.
abbrev pub last_addr : ℕ → Slots → ℕ
last_addr prev [] = prev
last_addr prev ((a, e) ∷ xs) = last_addr a xs

pub Layout-append_left : (lo hi : ℕ) (xs ys : Slots) → Layout lo hi (xs ++ ys) → Layout lo hi xs
Layout-append_left lo hi [] ys l = tt
Layout-append_left lo hi ((a, e) ∷ xs) ys l =
    (l.0, l.1, l.2, l.3, Layout-append_left (e + 1) hi xs ys l.4)

pub Layout-append_right :
    (lo hi : ℕ) (xs ys : Slots) → Layout lo hi (xs ++ ys) → Layout (behind lo xs) hi ys
Layout-append_right lo hi [] ys l = l
Layout-append_right lo hi ((a, e) ∷ xs) ys l = Layout-append_right (e + 1) hi xs ys l.4

pub Layout-append :
    (lo hi : ℕ) (xs ys : Slots)
    → Layout lo hi xs
    → Layout (behind lo xs) hi ys
    → Layout lo hi (xs ++ ys)
Layout-append lo hi [] ys l k = k
Layout-append lo hi ((a, e) ∷ xs) ys l k =
    (l.0, l.1, l.2, l.3, Layout-append (e + 1) hi xs ys l.4 k)

-- Slots that lie between bounds lie between wider ones.
pub Layout_mono :
    (lo hi lo' hi' : ℕ) (xs : Slots) → lo' ≤ lo → hi ≤ hi' → Layout lo hi xs → Layout lo' hi' xs
Layout_mono lo hi lo' hi' [] below above l = tt
Layout_mono lo hi lo' hi' ((a, e) ∷ xs) below above l = (
  omega arith,
  l.1,
  l.2,
  omega arith,
  Layout_mono (e + 1) hi (e + 1) hi' xs (omega arith) above l.4,
)

pub behind-le : (lo hi : ℕ) (xs : Slots) → Layout lo hi xs → lo ≤ behind lo xs
behind-le lo hi [] l = omega arith
behind-le lo hi ((a, e) ∷ xs) l = omega (arith, behind-le (e + 1) hi xs l.4)

-- The last slot ends at or before the greatest address behind the slots.
pub last_addr_bounds :
    (lo hi prev a e : ℕ) (xs : Slots)
    → Layout lo hi ((a, e) ∷ xs)
    → (a ≤ last_addr prev ((a, e) ∷ xs))
      × (last_addr prev ((a, e) ∷ xs) + 8 < behind lo ((a, e) ∷ xs))
      × (last_addr prev ((a, e) ∷ xs) + 8 ≤ hi)
last_addr_bounds lo hi prev a e [] l = omega arith
last_addr_bounds lo hi prev a e ((b, f) ∷ xs) l =
    omega (arith, last_addr_bounds (e + 1) hi prev b f xs l.4)

pub Seg-append :
    (words : ℕ → ℕ) (p q r : ℕ) (xs ys : Slots)
    → Seg words p xs q
    → Seg words q ys r
    → Seg words p (xs ++ ys) r
Seg-append words p q r [] ys s t = subst (λ (x : ℕ). Seg words x ys r) (sym s) t
Seg-append words p q r ((a, e) ∷ xs) ys s t =
    (s.0, s.1, Seg-append words (words (a + 4)) q r xs ys s.2 t)

-- Where a list begins with the slots `xs`, the rest of it hangs on a pointer.
pub Seg-cut :
    (words : ℕ → ℕ) (p r : ℕ) (xs ys : Slots)
    → Seg words p (xs ++ ys) r
    → (q : ℕ) × Seg words p xs q × Seg words q ys r
Seg-cut words p r [] ys s = (p, refl, s)
Seg-cut words p r ((a, e) ∷ xs) ys s =
    let (q, before, after) = Seg-cut words (words (a + 4)) r xs ys s.2 in
    (q, (s.0, s.1, before), after)

-- A segment survives changes of words outside its slots.
pub Seg-frame :
    (words words' : ℕ → ℕ) (lo hi p q : ℕ) (xs : Slots)
    → Layout lo hi xs
    → Seg words p xs q
    → ((b : ℕ) → lo ≤ b → b < behind lo xs → words' b ≡ words b)
    → Seg words' p xs q
Seg-frame words words' lo hi p q [] l s same = s
Seg-frame words words' lo hi p q ((a, e) ∷ xs) l s same =
    let grows = behind-le (e + 1) hi xs l.4 in
    let next : words' (a + 4) ≡ words (a + 4) = same (a + 4) (omega arith) (omega arith) in
    (
      s.0,
      same a (omega arith) (omega arith) ∙ s.1,
      subst (λ (x : ℕ). Seg words' x xs q) (sym next)
          (Seg-frame words words' (e + 1) hi (words (a + 4)) q xs l.4 s.2
            λ b above below. same b (omega arith) below),
    )

-- The last pointer of a segment can be redirected.
pub Seg-relink :
    (words : ℕ → ℕ) (lo hi prev p q r a e : ℕ) (xs : Slots)
    → Layout lo hi ((a, e) ∷ xs)
    → Seg words p ((a, e) ∷ xs) q
    → Seg (update words (last_addr prev ((a, e) ∷ xs) + 4) r) p ((a, e) ∷ xs) r
Seg-relink words lo hi prev p q r a e [] l s = (s.0, ground arith, ground arith)
Seg-relink words lo hi prev p q r a e ((b, f) ∷ xs) l s =
    let bounds = last_addr_bounds (e + 1) hi a b f xs l.4 in
    let last = last_addr a ((b, f) ∷ xs) in
    let same : update words (last + 4) r a ≡ words a = ground arith in
    let next : update words (last + 4) r (a + 4) ≡ words (a + 4) = ground arith in
    (
      s.0,
      same ∙ s.1,
      subst (λ (x : ℕ). Seg (update words (last + 4) r) x ((b, f) ∷ xs) r) (sym next)
          (Seg-relink words (e + 1) hi a (words (a + 4)) q r b f xs l.4 s.2),
    )

-- A free list survives changes of words between the slots `pre` and the slots `rest`.
pub Seg-frame_hole :
    (words words' : ℕ → ℕ) (lo hi mid p : ℕ) (pre rest : Slots)
    → Layout lo hi pre
    → Layout mid hi rest
    → Seg words p (pre ++ rest) 0
    → ((b : ℕ) → b < behind lo pre → words' b ≡ words b)
    → ((b : ℕ) → mid ≤ b → words' b ≡ words b)
    → Seg words' p (pre ++ rest) 0
Seg-frame_hole words words' lo hi mid p pre rest l k s below above =
    let (q, before, after) = Seg-cut words p 0 pre rest s in
    Seg-append words' p q 0 pre rest
      (Seg-frame words words' lo hi p q pre l before (λ b _ low. below b low))
      (Seg-frame words words' mid hi q 0 rest k after (λ b high _. above b high))
