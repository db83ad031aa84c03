-- ===== src/Rtl/Memory/State.antt =====
-- A heap whose free list is in order, and what a call of the allocator comes to in it.
use mette.Base.{ℕ, ◌+◌, ◌*◌, ◌≤◌, ◌<◌, ◌≡◌, ◌⊎◌, arith, [], ◌∷◌, length}
use mette.Rtl.Arena.{Heap, Run, done, segv, stuck, Cmd, ◌>>=◌, load, store, update}
use mette.Rtl.Memory.{plus_units}
use mette.Rtl.Memory.Chain.{Slots, Seg, Layout}

-- The address space of a process on i386.
abbrev pub limit : ℕ
limit = 0xC0000000

-- The call returns, and `P` holds of what it returns and of the heap after it.
abbrev pub Ends : {A : Type 0} → (A → Heap → Type 0) → Run A → Type 0
Ends P (done a h) = P a h
Ends P segv = ⊥
Ends P stuck = ⊥

pub Ends-bind :
    {A B : Type 0} (P : A → Heap → Type 0) (Q : B → Heap → Type 0) (m : Cmd A) (f : A → Cmd B)
    (h : Heap)
    → Ends P (m h)
    → ((a : A) (h' : Heap) → P a h' → Ends Q (f a h'))
    → Ends Q ((m >>= f) h)
Ends-bind {A} {B} P Q m f h ends next = run (m h) ends
  where
    run :
        (r : Run A)
        → Ends P r
        → Ends Q (elim r [ done a h' ↦ f a h' | segv ↦ segv | stuck ↦ stuck ])
    run (done a h') e = next a h' e
    run segv e = elim e [ ]
    run stuck e = elim e [ ]

pub Ends-mono :
    {A : Type 0} (P Q : A → Heap → Type 0) (r : Run A)
    → ((a : A) (h : Heap) → P a h → Q a h)
    → Ends P r
    → Ends Q r
Ends-mono P Q (done a h) weaken e = weaken a h e
Ends-mono P Q segv weaken e = elim e [ ]
Ends-mono P Q stuck weaken e = elim e [ ]

-- The free list is `xs`. Before the first call nothing is known of the arena; then it starts at
-- `first_slot` and ends at the program break, or the kernel has granted nothing yet.
pub record IsHeap (h : Heap) (xs : Slots) : Type 0 where
  pub chain : Seg h.words h.free_anchor xs 0
  pub layout : Layout h.first_slot h.program_break xs
  pub arena :
      ((h.arena_brk ≡ 0) × (xs ≡ []))
      ⊎ ((0 < h.arena_brk) × (h.program_break ≤ h.arena_brk) × (h.first_slot ≤ h.arena_brk))
  pub within : h.program_break ≤ limit
  pub arena_within : h.arena_brk ≤ limit
  pub begun : 0 < h.program_break

pub load_lem :
    (a : ℕ) (h : Heap) → h.first_slot ≤ a → a + 4 ≤ h.program_break → load a h ≡ done (h.words a) h
unfolding load
load_lem a h low high = ground arith

pub store_lem :
    (a v : ℕ) (h : Heap)
    → h.first_slot ≤ a
    → a + 4 ≤ h.program_break
    → store a v h ≡ done tt (record h { words = update h.words a v })
unfolding store
store_lem a v h low high = ground arith

-- A slot in the address space is followed by others without wrap-around.
pub plus_units_lem :
    (a units : ℕ) → a ≤ limit → units ≤ 0xFFFFFF → plus_units a units ≡ a + units * 8
plus_units_lem a units within few = omega arith

-- There are fewer free slots than rounds for a walk.
pub length-le :
    (lo hi a e : ℕ) (xs : Slots) → Layout lo hi ((a, e) ∷ xs) → lo + 8 * length ((a, e) ∷ xs) ≤ hi
length-le lo hi a e [] l = omega arith
length-le lo hi a e ((c, f) ∷ xs) l = omega (arith, length-le (e + 1) hi c f xs l.4)
