-- ===== src/Vm/Memory/Laws.antt =====
-- Byte order of the fetches and swaps of src/vm/vm_misc.h, and what a store leaves to a load.
use mette.Base.{List, [], ◌∷◌, All, get_elem?, zero, suc}
use mette.Base.{
  ℕ, ◌+◌, ◌*◌, ◌/◌, ◌%◌, ◌^◌, ◌<◌, ◌≡◌, ap, arith, some, none, Bool, true, false, Option,
  Returns-bind,
}
use mette.Base.{Result, ok, access, Returns, bit_and, bit_or, add32, if◌then◌else◌}
use mette.Base.{bit_or-shifted, bit_or-bytes, bit_and-255, bit_and-shifted}
use mette.Vm.Memory.{Target, i386, mips, Memory, load8, fetch16_ua, fetch32_ua, bswap16, bswap32}
use mette.Vm.Memory.{
  load16, load32, store8, store16, store32, update, bytes16, bytes32, misaligned, is_be,
}
use mette.Base.{fault, bad_access}

-- The swapped word, byte by byte.
pub bswap32-bytes :
    (v : ℕ)
    → v < 2 ^ 32
    → bswap32 v ≡ v / 16777216 + v / 65536 % 256 * 256 + v / 256 % 256 * 65536 + v % 256 * 16777216
unfolding bswap32
bswap32-bytes v h =
    let e1 : bit_and v 0xff000000 / 2 ^ 24 ≡ v / 16777216 =
      omega (arith, bit_and-shifted 24 v 255, bit_and-255 (v / 2 ^ 24)) in
    let e2 : bit_and v 0x00ff0000 / 2 ^ 8 ≡ v / 65536 % 256 * 2 ^ 8 =
      omega (arith, bit_and-shifted 16 v 255, bit_and-255 (v / 2 ^ 16)) in
    let e3 : bit_and v 0x0000ff00 * 2 ^ 8 ≡ v / 256 % 256 * 2 ^ 16 =
      omega (arith, bit_and-shifted 8 v 255, bit_and-255 (v / 2 ^ 8)) in
    let e4 : bit_and v 0x000000ff * 2 ^ 24 ≡ v % 256 * 2 ^ 24 = omega (arith, bit_and-255 v) in
    rw (e1, e2, e3, e4)
      (bit_or-bytes (v / 16777216) (v / 65536 % 256) (v / 256 % 256) (v % 256) (omega arith)
        (omega arith) (omega arith))

pub bswap16-bytes : (v : ℕ) → v < 2 ^ 16 → bswap16 v ≡ v / 256 + v % 256 * 256
unfolding bswap16
bswap16-bytes v h =
    let e1 : bit_and v 0xff00 / 2 ^ 8 ≡ v / 256 =
      omega (arith, bit_and-shifted 8 v 255, bit_and-255 (v / 2 ^ 8)) in
    let e2 : bit_and v 0x00ff * 2 ^ 8 ≡ v % 256 * 2 ^ 8 = omega (arith, bit_and-255 v) in
    rw (e1, e2) (omega (arith, bit_or-shifted 8 (v / 256) (v % 256) (omega arith)))

-- The swap of a 32-bit word is a 32-bit word, and swaps back.
pub bswap32-bswap32 : (v : ℕ) → v < 2 ^ 32 → (bswap32 v < 2 ^ 32) × (bswap32 (bswap32 v) ≡ v)
bswap32-bswap32 v h =
    let small : bswap32 v < 2 ^ 32 = omega (arith, bswap32-bytes v h) in
    (small, omega (arith, bswap32-bytes v h, bswap32-bytes (bswap32 v) small))

pub bswap16-bswap16 : (v : ℕ) → v < 2 ^ 16 → (bswap16 v < 2 ^ 16) × (bswap16 (bswap16 v) ≡ v)
bswap16-bswap16 v h =
    let small : bswap16 v < 2 ^ 16 = omega (arith, bswap16-bytes v h) in
    (small, omega (arith, bswap16-bytes v h, bswap16-bytes (bswap16 v) small))

-- The four bytes from an address on, round the end of the address space.
pub record HoldsWord (m : Memory) (addr b0 b1 b2 b3 : ℕ) : Type 0 where
  pub at0 : m addr ≡ some b0
  pub at1 : m (add32 addr 1) ≡ some b1
  pub at2 : m (add32 addr 2) ≡ some b2
  pub at3 : m (add32 addr 3) ≡ some b3

-- A word whose bytes stand lowest first is fetched as itself on i386, and byte-swapped on MIPS.
pub fetch32_ua-le32 :
    (t : Target) (m : Memory) (addr v : ℕ)
    → v < 2 ^ 32
    → HoldsWord m addr (v % 256) (v / 256 % 256) (v / 65536 % 256) (v / 16777216 % 256)
    → fetch32_ua t m addr ≡ ok (elim t [ i386 ↦ v | mips ↦ bswap32 v ])
unfolding fetch32_ua
fetch32_ua-le32 i386 m addr v h held =
    let e =
      bit_or-bytes (v % 256) (v / 256 % 256) (v / 65536 % 256) (v / 16777216 % 256) (omega arith)
        (omega arith) (omega arith) in
    rw (held.at0, held.at1, held.at2, held.at3, e) (ap ok (omega arith))
fetch32_ua-le32 mips m addr v h held =
    let e =
      bit_or-bytes (v / 16777216 % 256) (v / 65536 % 256) (v / 256 % 256) (v % 256) (omega arith)
        (omega arith) (omega arith) in
    rw (held.at0, held.at1, held.at2, held.at3, e) (ap ok (omega (arith, bswap32-bytes v h)))

-- `vm_fetch16_ua` of a half word whose bytes stand lowest first.
pub fetch16_ua-le16 :
    (t : Target) (m : Memory) (addr v : ℕ)
    → v < 2 ^ 16
    → m addr ≡ some (v % 256)
    → m (add32 addr 1) ≡ some (v / 256 % 256)
    → fetch16_ua t m addr ≡ ok (elim t [ i386 ↦ v | mips ↦ bswap16 v ])
unfolding fetch16_ua
fetch16_ua-le16 i386 m addr v h h0 h1 =
    rw (h0, h1, bit_or-shifted 8 (v % 256) (v / 256 % 256) (omega arith)) (ap ok (omega arith))
fetch16_ua-le16 mips m addr v h h0 h1 =
    rw (h0, h1, bit_or-shifted 8 (v / 256 % 256) (v % 256) (omega arith))
      (ap ok (omega (arith, bswap16-bytes v h)))

checked-Returns :
    {A : Type 0} (P : A → Type 0) (b : Bool) (r : Result A)
    → Returns P r
    → Returns P (if b then fault bad_access else r)
checked-Returns P true r h = tt
checked-Returns P false r h = h

-- Every mapped address holds a byte.
abbrev pub IsBytes : Memory → Type 0
IsBytes m = (addr v : ℕ) → m addr ≡ some v → v < 256

pub load8-lt : (m : Memory) (addr : ℕ) → IsBytes m → Returns (λ v. v < 256) (load8 m addr)
unfolding load8
load8-lt m addr h = grind arith

pub fetch16_ua-lt :
    (t : Target) (m : Memory) (addr : ℕ)
    → IsBytes m
    → Returns (λ v. v < 2 ^ 16) (fetch16_ua t m addr)
unfolding fetch16_ua
fetch16_ua-lt t m addr h =
    Returns-bind (λ v. v < 256) _ _ _ (load8-lt m addr h)
      λ p0 h0.
        Returns-bind (λ v. v < 256) _ _ _ (load8-lt m (add32 addr 1) h)
          λ p1 h1. both_orders t p0 p1 h0 h1
  where
    both_orders :
        (t : Target) (p0 p1 : ℕ)
        → p0 < 256
        → p1 < 256
        → (if is_be t then bit_or p1 (p0 * 2 ^ 8) else bit_or p0 (p1 * 2 ^ 8)) < 2 ^ 16
    both_orders i386 p0 p1 h0 h1 = omega (arith, bit_or-shifted 8 p0 p1 h0)
    both_orders mips p0 p1 h0 h1 = omega (arith, bit_or-shifted 8 p1 p0 h1)

pub fetch32_ua-lt :
    (t : Target) (m : Memory) (addr : ℕ)
    → IsBytes m
    → Returns (λ v. v < 2 ^ 32) (fetch32_ua t m addr)
unfolding fetch32_ua
fetch32_ua-lt t m addr h =
    Returns-bind (λ v. v < 256) _ _ _ (load8-lt m addr h)
      λ p0 h0.
        Returns-bind (λ v. v < 256) _ _ _ (load8-lt m (add32 addr 1) h)
          λ p1 h1.
            Returns-bind (λ v. v < 256) _ _ _ (load8-lt m (add32 addr 2) h)
              λ p2 h2.
                Returns-bind (λ v. v < 256) _ _ _ (load8-lt m (add32 addr 3) h)
                  λ p3 h3. both_orders t p0 p1 p2 p3 h0 h1 h2 h3
  where
    both_orders :
        (t : Target) (p0 p1 p2 p3 : ℕ)
        → p0 < 256
        → p1 < 256
        → p2 < 256
        → p3 < 256
        → (if is_be t
            then bit_or (bit_or (bit_or p3 (p2 * 2 ^ 8)) (p1 * 2 ^ 16)) (p0 * 2 ^ 24)
            else bit_or (bit_or (bit_or p0 (p1 * 2 ^ 8)) (p2 * 2 ^ 16)) (p3 * 2 ^ 24))
          < 2 ^ 32
    both_orders i386 p0 p1 p2 p3 h0 h1 h2 h3 = omega (arith, bit_or-bytes p0 p1 p2 p3 h0 h1 h2)
    both_orders mips p0 p1 p2 p3 h0 h1 h2 h3 = omega (arith, bit_or-bytes p3 p2 p1 p0 h3 h2 h1)

pub load16-lt :
    (t : Target) (m : Memory) (addr : ℕ) → IsBytes m → Returns (λ v. v < 2 ^ 16) (load16 t m addr)
unfolding load16
load16-lt t m addr h =
    checked-Returns (λ v. v < 2 ^ 16) (misaligned t 2 addr) _ (fetch16_ua-lt t m addr h)

pub load32-lt :
    (t : Target) (m : Memory) (addr : ℕ) → IsBytes m → Returns (λ v. v < 2 ^ 32) (load32 t m addr)
unfolding load32
load32-lt t m addr h =
    checked-Returns (λ v. v < 2 ^ 32) (misaligned t 4 addr) _ (fetch32_ua-lt t m addr h)

update-IsBytes : (m : Memory) (addr v : ℕ) → v < 256 → IsBytes m → IsBytes (update m addr v)
update-IsBytes m addr v small h q u e = ground (arith, h q u)

pub store8-IsBytes : (m : Memory) (addr v : ℕ) → IsBytes m → Returns IsBytes (store8 m addr v)
unfolding store8
store8-IsBytes m addr v h =
    Returns-bind (λ _. Unit {0}) IsBytes (access (m addr)) _ (access-Returns (m addr))
      λ _ _. update-IsBytes m addr (v % 256) (omega arith) h
  where
    access-Returns : (o : Option ℕ) → Returns (λ _. Unit {0}) (access o)
    access-Returns none = tt
    access-Returns (some _) = tt

pub store16-IsBytes :
    (t : Target) (m : Memory) (addr v : ℕ) → IsBytes m → Returns IsBytes (store16 t m addr v)
unfolding store16
store16-IsBytes t m addr v h = checked-Returns IsBytes (misaligned t 2 addr) _ (
    Returns-bind IsBytes IsBytes _ _ (store8-IsBytes m addr (bytes16 t v).0 h)
      λ m1 h1. store8-IsBytes m1 (add32 addr 1) (bytes16 t v).1 h1)

pub store32-IsBytes :
    (t : Target) (m : Memory) (addr v : ℕ) → IsBytes m → Returns IsBytes (store32 t m addr v)
unfolding store32
store32-IsBytes t m addr v h = checked-Returns IsBytes (misaligned t 4 addr) _ (
    Returns-bind IsBytes IsBytes _ _ (store8-IsBytes m addr (bytes32 t v).0 h) λ m1 h1.
      Returns-bind IsBytes IsBytes _ _ (store8-IsBytes m1 (add32 addr 1) (bytes32 t v).1 h1)
        λ m2 h2.
          Returns-bind IsBytes IsBytes _ _ (store8-IsBytes m2 (add32 addr 2) (bytes32 t v).2 h2)
            λ m3 h3. store8-IsBytes m3 (add32 addr 3) (bytes32 t v).3 h3)

-- A memory that is given by a list of bytes.
pub get_elem?-IsBytes : (bytes : List ℕ) → All (λ v. v < 256) bytes → IsBytes (get_elem? bytes)
get_elem?-IsBytes [] h addr v e = cc
get_elem?-IsBytes (x ∷ xs) h zero v e = let p : x ≡ v = cc in rw (← p) h.0
get_elem?-IsBytes (x ∷ xs) h (suc i) v e = get_elem?-IsBytes xs h.1 i v e
