-- ===== src/Vm/Loader/Image.antt =====
-- The images that src/vm/vm_loader.c accepts, and the module that it makes of them.
use mette.Base.{
  ℕ, ◌+◌, ◌*◌, ◌/◌, ◌%◌, ◌^◌, ◌≤◌, ◌<◌, ◌≡◌, ◌≢◌, refl, ap, ap₂, Panic, sym, ◌∙◌, arith, true,
}
use mette.Base.{
  Option, some, none, List, [], ◌∷◌, ◌++◌, map, length, take, drop, All, add32, le16, le32,
}
use mette.Base.{
  ok, ◌>>=◌, take-append_eq, drop-append_eq, take-length, drop-drop, length-append, ==-refl,
  ne→==-false, le→ltb-false,
}
use mette.Vm.Memory.{Target, i386, mips, Memory, bswap16, bswap32}
use mette.Vm.Memory.Laws.{bswap32-bytes, bswap16-bytes, bswap32-bswap32, bswap16-bswap16}
use mette.Base.{input_too_short, header_read_failed, ncalls_read_failed}
use mette.Vm.Loader.{Files, field16, field32, words32, fix_up, place}
use mette.Vm.Loader.{read_exactly, read_body, load_ncalls, load_fd}

-- What the loader relies on for a regular file with the given bytes: a position, which reads
-- advance and `lseek` sets, and reads that deliver all the bytes asked for that are there.
pub record Regular (fs : Files) (file : List ℕ) : Type 1 where
  pub At : fs.Handle → ℕ → Type 0
  pub seek_at : (h : fs.Handle) (pos : ℕ) → At (fs.lseek h pos) pos
  pub read_bytes :
      (h : fs.Handle) (pos count : ℕ)
      → At h pos
      → pos + count ≤ length file
      → (fs.read h count).0 ≡ some (take count (drop pos file))
  pub read_at :
      (h : fs.Handle) (pos count : ℕ)
      → At h pos
      → pos + count ≤ length file
      → At (fs.read h count).1 (pos + count)

-- An image: the signature, four fields and their padding up to byte 32, the body, and a hash for
-- each native call; every number lowest byte first.
abbrev pub hash_bytes : List ℕ → List ℕ
hash_bytes [] = []
hash_bytes (h ∷ hs) = le32 h ++ hash_bytes hs

abbrev pub header : ℕ → ℕ → ℕ → ℕ → List ℕ → List ℕ
header memsize filesize ep count pad =
    (b'B' ∷ b'A' ∷ b'R' ∷ b'F' ∷ [])
    ++ (le32 memsize ++ (le32 filesize ++ (le32 ep ++ (le16 count ++ pad))))

-- On both targets a field that is stored lowest byte first is read as the number stored.
field32-le32 : (t : Target) (v : ℕ) → v < 2 ^ 32 → field32 t (le32 v) ≡ v
field32-le32 i386 v h = omega arith
field32-le32 mips v h =
    let e : v / 16777216 % 256 + v / 65536 % 256 * 256 + v / 256 % 256 * 65536 + v % 256 * 16777216
        ≡ bswap32 v =
      omega (arith, bswap32-bytes v h) in
    rw e (bswap32-bswap32 v h).1

field16-le16 : (t : Target) (v : ℕ) → v < 2 ^ 16 → field16 t (le16 v) ≡ v
field16-le16 i386 v h = omega arith
field16-le16 mips v h =
    let e : v / 256 % 256 + v % 256 * 256 ≡ bswap16 v = omega (arith, bswap16-bytes v h) in
    rw e (bswap16-bswap16 v h).1

length-hash_bytes : (hs : List ℕ) → length (hash_bytes hs) ≡ length hs * 4
length-hash_bytes [] = omega arith
length-hash_bytes (h ∷ hs) = omega (arith, length-hash_bytes hs)

words32-hash_bytes :
    (t : Target) (hs : List ℕ) → All (λ h. h < 2 ^ 32) hs → words32 t (hash_bytes hs) ≡ hs
unfolding words32
words32-hash_bytes t [] a = refl
words32-hash_bytes t (h ∷ hs) a = ap₂ ◌∷◌ (field32-le32 t h a.0) (words32-hash_bytes t hs a.1)

fix_up-found :
    (lookup : ℕ → ℕ) (hs : List ℕ)
    → All (λ h. lookup h ≢ 0) hs
    → fix_up lookup hs ≡ ok (map lookup hs)
unfolding fix_up
fix_up-found lookup [] a = refl
fix_up-found lookup (h ∷ hs) a = rw (ne→==-false (lookup h) 0 a.0, fix_up-found lookup hs a.1)

-- What `vm_load_fd` makes of the table of native calls.
abbrev pub loaded_table : (ℕ → ℕ) → List ℕ → Option (List ℕ)
loaded_table lookup [] = none
loaded_table lookup (h ∷ hs) = some (map lookup (h ∷ hs))

fixed_table :
    (t : Target) (lookup : ℕ → ℕ) (hs : List ℕ)
    → All (λ h. h < 2 ^ 32) hs
    → All (λ h. lookup h ≢ 0) hs
    → (fix_up lookup (words32 t (hash_bytes hs)) >>= λ table. ok (some table))
      ≡ ok (some (map lookup hs))
fixed_table t lookup hs words known =
    rw (words32-hash_bytes t hs words, fix_up-found lookup hs known)

module _ (fs : Files) (file : List ℕ) (reg : Regular fs file) where
  open fs use {Handle, read, lseek}
  open reg use {At}

  read_exactly-Regular :
      (p : Panic) (h : Handle) (pos count : ℕ) (bs : List ℕ)
      → At h pos
      → pos + count ≤ length file
      → take count (drop pos file) ≡ bs
      → length bs ≡ count
      → (h' : Handle) × (read_exactly fs p h count ≡ ok (bs, h')) × At h' (pos + count)
  unfolding read_exactly
  read_exactly-Regular p h pos count bs at fits e n = (
    (read h count).1,
    rw (reg.read_bytes h pos count at fits, read_exactly) (rw (e, n, ==-refl count)),
    reg.read_at h pos count at fits,
  )

  read_body-Regular :
      (h : Handle) (pos memsize count : ℕ) (bs : List ℕ)
      → At h pos
      → pos + count ≤ length file
      → take count (drop pos file) ≡ bs
      → length bs ≡ count
      → count ≤ memsize
      → (h' : Handle) × (read_body fs h memsize count ≡ ok (bs, h')) × At h' (pos + count)
  unfolding read_body
  read_body-Regular h pos memsize count bs at fits e n room = (
    (read h count).1,
    rw (reg.read_bytes h pos count at fits, read_body)
        (rw (e, n, le→ltb-false memsize count room, ==-refl count)),
    reg.read_at h pos count at fits,
  )

  load_ncalls-Regular :
      (t : Target) (lookup : ℕ → ℕ) (h : Handle) (pos : ℕ) (hs : List ℕ)
      → At h pos
      → pos + length hs * 4 ≤ length file
      → take (length hs * 4) (drop pos file) ≡ hash_bytes hs
      → All (λ x. x < 2 ^ 32) hs
      → All (λ x. lookup x ≢ 0) hs
      → load_ncalls fs t true lookup h (length hs) ≡ ok (loaded_table lookup hs)
  unfolding load_ncalls
  load_ncalls-Regular t lookup h pos [] at fits e words known = refl
  load_ncalls-Regular t lookup h pos (x ∷ hs) at fits e words known =
      let (h', r, _) =
        read_exactly-Regular ncalls_read_failed h pos (length (x ∷ hs) * 4) (hash_bytes (x ∷ hs)) at
          fits e (length-hash_bytes (x ∷ hs)) in
      rw (ne→==-false (length (x ∷ hs)) 0 (omega arith), r)
        (fixed_table t lookup (x ∷ hs) words known)

module _ (fs : Files) (memsize filesize ep : ℕ) (pad body hashes : List ℕ) where
  abbrev pub image : List ℕ
  image = header memsize filesize ep (length hashes) pad ++ (body ++ hash_bytes hashes)

  -- An image in a regular file, whose fields fit their widths and whose body has the file size, no
  -- larger than the memory size, is loaded on both targets, if memory is granted and the
  -- hash of each native call is known: the entry is `ep` behind the address of the image, the
  -- body stands in memory from there on, and the table holds the native procedures in the order
  -- of the hashes.
  pub load_fd-image :
      Regular fs image
      → (t : Target) (lookup : ℕ → ℕ) (fd : fs.Handle) (memory : Memory) (base : ℕ)
      → (memsize < 2 ^ 32) × (filesize < 2 ^ 32) × (ep < 2 ^ 32) × (length hashes < 2 ^ 16)
      → length pad ≡ 14
      → length body ≡ filesize
      → filesize ≤ memsize
      → All (λ h. h < 2 ^ 32) hashes
      → All (λ h. lookup h ≢ 0) hashes
      → load_fd fs t
          (record { module_granted = true; image = some base; table_granted = true })
          lookup
          fd
          memory
        ≡ ok (
          record { base = base; entry = add32 base ep; ncalls_table = loaded_table lookup hashes },
          place memory base body,
        )
  unfolding load_fd
  load_fd-image reg t lookup fd memory base small pad_len body_len fits words known =
      let len =
        length-append (header memsize filesize ep (length hashes) pad)
          (body ++ hash_bytes hashes) in
      let len2 = length-append body (hash_bytes hashes) in
      let len3 = length-hash_bytes hashes in
      let (h1, e1, a1) =
        read_exactly-Regular fs image reg input_too_short (fs.lseek fd 0) 0 4 _ (reg.seek_at fd 0)
          (omega arith) refl refl in
      let (h2, e2, a2) =
        read_exactly-Regular fs image reg header_read_failed h1 4 4 _ a1 (omega arith) refl refl in
      let (h3, e3, a3) =
        read_exactly-Regular fs image reg header_read_failed h2 8 4 _ a2 (omega arith) refl refl in
      let (h4, e4, a4) =
        read_exactly-Regular fs image reg header_read_failed h3 12 4 _ a3 (omega arith) refl refl in
      let (h5, e5, a5) =
        read_exactly-Regular fs image reg header_read_failed h4 16 2 _ a4 (omega arith) refl refl in
      let skipped : drop 32 image ≡ body ++ hash_bytes hashes =
        drop-append_eq 14 pad (body ++ hash_bytes hashes) pad_len in
      let to_body : take filesize (drop 32 image) ≡ body =
        ap (λ l. take filesize l) skipped
        ∙ take-append_eq filesize body (hash_bytes hashes) body_len in
      let (h7, e7, a7) =
        read_body-Regular fs image reg (fs.lseek h5 32) 32 memsize filesize body (reg.seek_at h5 32)
          (omega arith) to_body body_len fits in
      let to_hashes : take (length hashes * 4) (drop (32 + filesize) image) ≡ hash_bytes hashes =
        ap (λ l. take (length hashes * 4) l)
          (sym (drop-drop 32 filesize image)
            ∙ ap (λ l. drop filesize l) skipped
            ∙ drop-append_eq filesize body (hash_bytes hashes) body_len)
        ∙ (rw (← len3) (take-length (hash_bytes hashes))) in
      rw (
        e1,
        e2,
        e3,
        e4,
        e5,
        field32-le32 t memsize small.0,
        field32-le32 t filesize small.1,
        field32-le32 t ep small.2,
        field16-le16 t (length hashes) small.3,
        e7,
        load_ncalls-Regular fs image reg t lookup h7 (32 + filesize) hashes a7 (omega arith)
            to_hashes words known,
      )
