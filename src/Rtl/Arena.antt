-- ===== src/Rtl/Arena.antt =====
-- The memory that src/rtl/rtl_memory.c manages: words at addresses, the variables of the file, and
-- the program break of the process. A word is 4 bytes, and the program reads and writes words at
-- multiples of 4.
use mette.Base.{ℕ, ◌+◌, ◌-◌, ◌^◌, Bool, ◌&&◌, leb, ◌==◌, if◌then◌else◌, add32, bit_and}

-- `free_anchor`, `first_slot` and `arena_brk` of rtl_memory.c are 0 at the start. `program_break`
-- is the kernel's. A slot at `p` has `next_slot` at `p` and `next_free` at `p + 4`.
pub record Heap : Type 0 where
  pub words : ℕ → ℕ
  pub free_anchor : ℕ
  pub first_slot : ℕ
  pub arena_brk : ℕ
  pub program_break : ℕ

-- `segv`: an access outside the arena. `stuck`: the fuel of a loop is used up.
pub data Run (A : Type 0) : Type 0 where
  done : A → Heap → Run A
  segv : Run A
  stuck : Run A

abbrev pub Cmd : Type 0 → Type 0
Cmd A = Heap → Run A

abbrev pub pure : {A : Type 0} → A → Cmd A
pure a h = done a h

infixl 5 ◌>>=◌ ◌>>◌
abbrev pub ◌>>=◌ : {A B : Type 0} → Cmd A → (A → Cmd B) → Cmd B
◌>>=◌ m next h = elim (m h) [ done a h' ↦ next a h' | segv ↦ segv | stuck ↦ stuck ]

abbrev pub ◌>>◌ : {A B : Type 0} → Cmd A → Cmd B → Cmd B
m >> n = m >>= λ _. n

abbrev pub update : (ℕ → ℕ) → ℕ → ℕ → ℕ → ℕ
update words a v b = if b == a then v else words b

-- The four bytes from `a` on lie between the start of the arena and the program break.
abbrev pub mapped : ℕ → Heap → Bool
mapped a h = leb h.first_slot a && leb (a + 4) h.program_break

unfoldable pub load : ℕ → Cmd ℕ
load a h = if mapped a h then done (h.words a) h else segv

unfoldable pub store : ℕ → ℕ → Cmd (Unit {0})
store a v h = if mapped a h then done tt (record h { words = update h.words a v }) else segv

-- `slot->next_slot` and `slot->next_free`.
abbrev pub next_slot : ℕ → Cmd ℕ
next_slot slot = load slot

abbrev pub next_free : ℕ → Cmd ℕ
next_free slot = load (slot + 4)

abbrev pub set_next_slot : ℕ → ℕ → Cmd (Unit {0})
set_next_slot slot v = store slot v

abbrev pub set_next_free : ℕ → ℕ → Cmd (Unit {0})
set_next_free slot v = store (slot + 4) v

abbrev pub get_free_anchor : Cmd ℕ
get_free_anchor h = done h.free_anchor h

abbrev pub set_free_anchor : ℕ → Cmd (Unit {0})
set_free_anchor v h = done tt (record h { free_anchor = v })

-- `ALIGN` on 32-bit operands.
unfoldable pub align : ℕ → ℕ → ℕ
align x a = bit_and (add32 x (a - 1)) (2 ^ 32 - a)
