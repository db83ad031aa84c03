-- ===== src/Vm/Loader.antt =====
-- src/vm/vm_loader.c: loading a module from an open file.
pub mod Image
use mette.Base.{ℕ, zero, suc, ◌+◌, ◌*◌, Bool, true, false, ◌==◌, ltb, if◌then◌else◌}
use mette.Base.{Option, some, none, List, [], ◌∷◌, length, add32, ◌&&◌}
use mette.Base.{Result, ok, panic, fault, ◌>>=◌, ◌>>◌, require, bad_access, Panic}
use mette.Base.{input_too_short, invalid_input, header_read_failed, module_alloc_failed}
use mette.Base.{image_alloc_failed, body_read_failed, ncalls_alloc_failed, ncalls_read_failed}
use mette.Base.{unresolved_thunk}
use mette.Vm.Memory.{Target, i386, mips, Memory, is_be, bswap16, bswap32, update}
use mette.Vm.Context.{LoadedModule}

-- The system calls on a file. A read gives the bytes that it delivered, `none` if it failed.
pub record Files : Type 1 where
  pub Handle : Type 0
  pub read : Handle → ℕ → Option (List ℕ) × Handle
  pub lseek : Handle → ℕ → Handle

-- What `vm_alloc` answers, in the order of the calls: for the module, for the image, and for
-- the table of native calls.
pub record Grants : Type 0 where
  pub module_granted : Bool
  pub image : Option ℕ
  pub table_granted : Bool

-- An object of C read from its bytes, in the byte order of the target.
abbrev pub native16 : Target → List ℕ → ℕ
native16 i386 (b0 ∷ b1 ∷ []) = b0 + b1 * 256
native16 mips (b0 ∷ b1 ∷ []) = b1 + b0 * 256
native16 t _ = 0

abbrev pub native32 : Target → List ℕ → ℕ
native32 i386 (b0 ∷ b1 ∷ b2 ∷ b3 ∷ []) = b0 + b1 * 256 + b2 * 65536 + b3 * 16777216
native32 mips (b0 ∷ b1 ∷ b2 ∷ b3 ∷ []) = b3 + b2 * 256 + b1 * 65536 + b0 * 16777216
native32 t _ = 0

-- The fields after the swaps for a big-endian target.
abbrev pub field16 : Target → List ℕ → ℕ
field16 t bs = if is_be t then bswap16 (native16 t bs) else native16 t bs

abbrev pub field32 : Target → List ℕ → ℕ
field32 t bs = if is_be t then bswap32 (native32 t bs) else native32 t bs

-- Consecutive words of the table of native calls; a rest of less than a word is left out.
unfoldable pub words32 : Target → List ℕ → List ℕ
words32 t (b0 ∷ b1 ∷ b2 ∷ b3 ∷ bs) = field32 t (b0 ∷ b1 ∷ b2 ∷ b3 ∷ []) ∷ words32 t bs
words32 t _ = []

-- The loop that fixes up the table.
unfoldable pub fix_up : (ℕ → ℕ) → List ℕ → Result (List ℕ)
fix_up lookup [] = ok []
fix_up lookup (hash ∷ hashes) = do
  let thunk = lookup hash
  let rest = fix_up lookup hashes
  if thunk == 0 then panic unresolved_thunk else (do table ← rest; ok (thunk ∷ table))

-- The bytes of the body, from an address on.
unfoldable pub place : Memory → ℕ → List ℕ → Memory
place m addr [] = m
place m addr (b ∷ bs) = place (update m addr b) (add32 addr 1) bs

module _ (fs : Files) where
  open fs use {Handle, read, lseek}

  -- `vm_read` of `count` bytes, and the panic if it delivers another number.
  unfoldable pub read_exactly : Panic → Handle → ℕ → Result (List ℕ × Handle)
  read_exactly p h count =
      let (got, h') = read h count in
      elim got [ none ↦ panic p | some bs ↦ if length bs == count then ok (bs, h') else panic p ]

  -- `signature[0] != 'B' || ...`.
  abbrev pub is_signature : List ℕ → Bool
  is_signature (c0 ∷ c1 ∷ c2 ∷ c3 ∷ []) = c0 == b'B' && c1 == b'A' && c2 == b'R' && c3 == b'F'
  is_signature _ = false

  -- The read of the body into `memsize` bytes. What does not fit is written behind them.
  unfoldable pub read_body : Handle → ℕ → ℕ → Result (List ℕ × Handle)
  read_body h memsize filesize =
      let (got, h') = read h filesize in
      elim got [
        | none ↦ panic body_read_failed
        | some bs ↦
            if ltb memsize (length bs)
            then fault bad_access
            else if length bs == filesize
            then ok (bs, h')
            else panic body_read_failed
      ]

  -- The part of `vm_load_fd` that fills `ncalls_table`.
  unfoldable pub load_ncalls : Target → Bool → (ℕ → ℕ) → Handle → ℕ → Result (Option (List ℕ))
  unfolding read_exactly words32 fix_up
  load_ncalls t granted lookup h count =
      if count == 0
      then ok none
      else if granted
      then (do
        (bs, _) ← read_exactly ncalls_read_failed h (count * 4)
        table ← fix_up lookup (words32 t bs)
        ok (some table))
      else panic ncalls_alloc_failed

  -- `vm_load_fd`.
  unfoldable pub load_fd :
      Target → Grants → (ℕ → ℕ) → Handle → Memory → Result (LoadedModule × Memory)
  unfolding read_exactly read_body load_ncalls place
  load_fd t g lookup fd memory = do
    (signature, h1) ← read_exactly input_too_short (lseek fd 0) 4
    require (is_signature signature) invalid_input
    (memsize, h2) ← read_exactly header_read_failed h1 4
    (filesize, h3) ← read_exactly header_read_failed h2 4
    (ep_offset, h4) ← read_exactly header_read_failed h3 4
    (ncalls_count, h5) ← read_exactly header_read_failed h4 2
    let h6 = lseek h5 0x20
    require g.module_granted module_alloc_failed
    base ← elim g.image [ none ↦ panic image_alloc_failed | some base ↦ ok base ]
    (body, h7) ← read_body h6 (field32 t memsize) (field32 t filesize)
    table ← load_ncalls t g.table_granted lookup h7 (field16 t ncalls_count)
    ok (
      record { base = base; entry = add32 base (field32 t ep_offset); ncalls_table = table },
      place memory base body,
    )
