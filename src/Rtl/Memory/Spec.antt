-- ===== src/Rtl/Memory/Spec.antt =====
-- What the allocator does to the free list, on lists of slots: the first slot that fits is cut,
-- and a slot that comes back is joined with its neighbours.
use mette.Base.{
  ℕ, ◌+◌, ◌≤◌, ◌<◌, ◌≡◌, refl, ap, ◌∙◌, ◌⊎◌, inl, inr, arith, All, [], ◌∷◌, ◌++◌, ltb, ◌==◌,
  if◌then◌else◌, Bool-cases, ltb→lt, lt→ltb, le→ltb-false, ltb-false→le, ==-refl, ne→==-false,
}
use mette.Rtl.Memory.Chain.{
  Slots, Layout, behind, Layout_mono, behind-le, Layout-append_left, Layout-append_right,
}

-- The end of what is cut from the slot of `a` and `e` for `n` bytes, and what is left.
abbrev pub cut_end : ℕ → ℕ → ℕ → ℕ
cut_end n a e = if ltb (a + n + 8) e then a + n else e

abbrev pub leftover : ℕ → ℕ → ℕ → Slots
leftover n a e = if ltb (a + n + 8) e then (a + n, e) ∷ [] else []

abbrev pub IsSmall : ℕ → ℕ × ℕ → Type 0
IsSmall n (a, e) = e < a + n

-- The slot of `a` and `e` is the first of `xs` with `n` bytes.
pub record FirstFit (n : ℕ) (xs : Slots) : Type 0 where
  pub pre : Slots
  pub a : ℕ
  pub e : ℕ
  pub post : Slots
  pub parts : xs ≡ pre ++ (a, e) ∷ post
  pub small : All (IsSmall n) pre
  pub large : a + n ≤ e

-- There is a first slot that fits, or all are too small.
pub FirstFit-cases : (n : ℕ) (xs : Slots) → FirstFit n xs ⊎ All (IsSmall n) xs
FirstFit-cases n [] = inr tt
FirstFit-cases n ((a, e) ∷ xs) = elim (Bool-cases (ltb e (a + n))) [
  | inr fits ↦ inl (record {
    pre = [];
    a = a;
    e = e;
    post = xs;
    parts = refl;
    small = tt;
    large = ltb-false→le e (a + n) fits;
  })
  | inl low ↦ elim (FirstFit-cases n xs) [
    | inl fit ↦ inl (record {
      pre = (a, e) ∷ fit.pre;
      a = fit.a;
      e = fit.e;
      post = fit.post;
      parts = ap (λ t. (a, e) ∷ t) fit.parts;
      small = (ltb→lt e (a + n) low, fit.small);
      large = fit.large;
    })
    | inr none_fits ↦ inr (ltb→lt e (a + n) low, none_fits)
  ]
]

unfoldable pub join : ℕ × ℕ → Slots → Slots
join (a, e) [] = (a, e) ∷ []
join (a, e) ((c, f) ∷ xs) = if e == c then (a, f) ∷ xs else (a, e) ∷ (c, f) ∷ xs

unfoldable pub give_back : ℕ × ℕ → Slots → Slots
unfolding join
give_back (a, e) [] = (a, e) ∷ []
give_back (a, e) ((c, f) ∷ xs) =
    if ltb c a
    then (if f == a then join (c, e) xs else (c, f) ∷ give_back (a, e) xs)
    else join (a, e) ((c, f) ∷ xs)

-- The slot of `a` and `e` has no address in common with the slots `xs`.
abbrev pub Apart : ℕ × ℕ → Slots → Type 0
Apart (a, e) xs = All (λ (s : ℕ × ℕ). (e ≤ s.0) ⊎ (s.1 ≤ a)) xs

-- The address is in none of the slots.
abbrev pub Outside : ℕ → Slots → Type 0
Outside x xs = All (λ (s : ℕ × ℕ). (x < s.0) ⊎ (s.1 ≤ x)) xs

-- A slot behind the slots `pre` that touches none of them joins what follows them.
pub give_back-append :
    (lo hi a e : ℕ) (pre post : Slots)
    → Layout lo hi pre
    → behind lo pre ≤ a
    → a < e
    → Layout e hi post
    → give_back (a, e) (pre ++ post) ≡ pre ++ join (a, e) post
unfolding give_back join
give_back-append lo hi a e [] [] l above pos k = refl
give_back-append lo hi a e [] ((c, f) ∷ post) l above pos k =
    rw (le→ltb-false c a (omega arith)) refl
give_back-append lo hi a e ((c, f) ∷ pre) post l above pos k =
    let grows = behind-le (f + 1) hi pre l.4 in
    rw (lt→ltb c a (omega arith), ne→==-false f a (omega arith))
      (ap (λ t. (c, f) ∷ t) (give_back-append (f + 1) hi a e pre post l.4 above pos k))

-- A slot that touches the last of the slots before it lengthens that slot.
pub give_back-touching :
    (lo hi c a e : ℕ) (pre post : Slots)
    → Layout lo hi pre
    → behind lo pre ≤ c
    → c < a
    → give_back (a, e) (pre ++ (c, a) ∷ post) ≡ pre ++ join (c, e) post
unfolding give_back
give_back-touching lo hi c a e [] post l above pos = rw (lt→ltb c a pos, ==-refl a) refl
give_back-touching lo hi c a e ((b, f) ∷ pre) post l above pos =
    let grows = behind-le (f + 1) hi pre l.4 in
    rw (lt→ltb b a (omega arith), ne→==-false f a (omega arith))
      (ap (λ t. (b, f) ∷ t) (give_back-touching (f + 1) hi c a e pre post l.4 above pos))

-- What is cut from a slot comes back to the same slot.
pub join-leftover :
    (n hi a e : ℕ) (post : Slots)
    → a + 8 ≤ e
    → Layout (e + 1) hi post
    → join (a, cut_end n a e) (leftover n a e ++ post) ≡ (a, e) ∷ post
unfolding join
join-leftover n hi a e [] wide l = elim (Bool-cases (ltb (a + n + 8) e)) [
  | inl cut ↦ rw cut (rw (==-refl (a + n)) refl)
  | inr whole ↦ rw whole refl
]
join-leftover n hi a e ((c, f) ∷ post) wide l = elim (Bool-cases (ltb (a + n + 8) e)) [
  | inl cut ↦ rw cut (rw (==-refl (a + n)) refl)
  | inr whole ↦ rw whole (rw (ne→==-false e c (omega arith)) refl)
]

pub leftover-Layout :
    (n hi a e : ℕ) (post : Slots)
    → 8 ≤ n
    → a + n ≤ e
    → e ≤ hi
    → Layout (e + 1) hi post
    → Layout (a + 8) hi (leftover n a e ++ post)
leftover-Layout n hi a e post wide large top l = elim (Bool-cases (ltb (a + n + 8) e)) [
  | inl cut ↦
      let room = ltb→lt (a + n + 8) e cut in rw cut (omega arith, omega arith, omega arith, top, l)
  | inr whole ↦ rw whole (Layout_mono (e + 1) hi (a + 8) hi post (omega arith) (omega arith) l)
]

pub join-Layout :
    (lo hi a e : ℕ) (post : Slots)
    → lo ≤ a
    → 0 < a
    → a + 8 ≤ e
    → e ≤ hi
    → Layout e hi post
    → Layout lo hi (join (a, e) post)
unfolding join
join-Layout lo hi a e [] above pos wide top l = (above, pos, wide, top, tt)
join-Layout lo hi a e ((c, f) ∷ post) above pos wide top l = elim (Bool-cases (e == c)) [
  | inl touch ↦ rw touch (above, pos, omega arith, l.3, l.4)
  | inr apart ↦ rw apart (above, pos, wide, top, (ground arith, l.1, l.2, l.3, l.4))
]

pub behind-cut :
    (lo hi a e : ℕ) (pre post : Slots) → Layout lo hi (pre ++ (a, e) ∷ post) → behind lo pre ≤ a
behind-cut lo hi a e pre post l = (Layout-append_right lo hi pre ((a, e) ∷ post) l).0

leftover_cut :
    (n hi a e : ℕ) (post : Slots)
    → a + n ≤ e
    → e ≤ hi
    → Layout (e + 1) hi post
    → 0 < a
    → Layout (cut_end n a e) hi (leftover n a e ++ post)
leftover_cut n hi a e post large top l pos = elim (Bool-cases (ltb (a + n + 8) e)) [
  | inl cut ↦
      let room = ltb→lt (a + n + 8) e cut in rw cut (omega arith, omega arith, omega arith, top, l)
  | inr whole ↦ rw whole (Layout_mono (e + 1) hi e hi post (omega arith) (omega arith) l)
]

-- A block that is allocated and freed leaves the free list as it was.
pub give_back-cut :
    (n lo hi a e : ℕ) (pre post : Slots)
    → 8 ≤ n
    → a + n ≤ e
    → Layout lo hi (pre ++ (a, e) ∷ post)
    → give_back (a, cut_end n a e) (pre ++ (leftover n a e ++ post)) ≡ pre ++ (a, e) ∷ post
give_back-cut n lo hi a e pre post wide large l =
    let before = Layout-append_left lo hi pre ((a, e) ∷ post) l in
    let right = Layout-append_right lo hi pre ((a, e) ∷ post) l in
    give_back-append lo hi a (cut_end n a e) pre (leftover n a e ++ post) before right.0
      (ground arith) (leftover_cut n hi a e post large right.3 right.4 right.1)
    ∙ ap (λ t. pre ++ t) (join-leftover n hi a e post right.2 right.4)
