-- ===== src/Native/Order.antt =====
-- The byte order of the network: `rtl_htonl` and `rtl_htons` of src/vm_thunks/vmt_sockets.c.
use mette.Base.{ℕ, ◌+◌, ◌*◌, ◌/◌, ◌%◌, ◌^◌, ◌<◌, ◌≡◌, ap, arith, bit_and, bit_or, u16, refl}
use mette.Base.{bit_or-shifted, bit_or_comm, bit_and-255, bit_and-shifted}
use mette.Vm.Memory.{Target, i386, mips, bswap16, bswap32}
use mette.Vm.Memory.Laws.{bswap32-bytes, bswap32-bswap32, bswap16-bswap16}
use mette.Native.Sockets.{rtl_htonl, rtl_htons}

-- The disjunction of four bytes at their places, the highest first.
bit_or-bytes_down :
    (b0 b1 b2 b3 : ℕ)
    → b0 < 256
    → b1 < 256
    → b2 < 256
    → b3 < 256
    → bit_or (bit_or (bit_or (b3 * 2 ^ 24) (b2 * 2 ^ 16)) (b1 * 2 ^ 8)) b0
      ≡ b0 + b1 * 256 + b2 * 65536 + b3 * 16777216
bit_or-bytes_down b0 b1 b2 b3 h0 h1 h2 h3 =
    let e2 : bit_or (b3 * 2 ^ 24) (b2 * 2 ^ 16) ≡ (b2 + b3 * 2 ^ 8) * 2 ^ 16 = omega (
      arith,
      bit_or_comm 32 (b3 * 2 ^ 24) (b2 * 2 ^ 16) (omega arith) (omega arith),
      bit_or-shifted 24 (b2 * 2 ^ 16) b3 (omega arith),
    ) in
    let e1 : bit_or ((b2 + b3 * 2 ^ 8) * 2 ^ 16) (b1 * 2 ^ 8)
        ≡ (b1 + b2 * 2 ^ 8 + b3 * 2 ^ 16) * 2 ^ 8 =
      omega (
        arith,
        bit_or_comm 32 ((b2 + b3 * 2 ^ 8) * 2 ^ 16) (b1 * 2 ^ 8) (omega arith) (omega arith),
        bit_or-shifted 16 (b1 * 2 ^ 8) (b2 + b3 * 2 ^ 8) (omega arith),
      ) in
    let e0 =
      bit_or_comm 32 ((b1 + b2 * 2 ^ 8 + b3 * 2 ^ 16) * 2 ^ 8) b0 (omega arith) (omega arith) in
    rw (e2, e1, e0, bit_or-shifted 8 b0 (b1 + b2 * 2 ^ 8 + b3 * 2 ^ 16) h0) (omega arith)

-- On i386 it is the byte swap of the machine.
rtl_htonl_i386 : (x : ℕ) → x < 2 ^ 32 → rtl_htonl i386 x ≡ bswap32 x
unfolding rtl_htonl
rtl_htonl_i386 v h =
    let e1 : bit_and v 0xff000000 / 2 ^ 24 ≡ v / 16777216 =
      omega (arith, bit_and-shifted 24 v 255, bit_and-255 (v / 2 ^ 24)) in
    let e2 : bit_and v 0x00ff0000 / 2 ^ 8 ≡ v / 65536 % 256 * 2 ^ 8 =
      omega (arith, bit_and-shifted 16 v 255, bit_and-255 (v / 2 ^ 16)) in
    let e3 : bit_and v 0x0000ff00 * 2 ^ 8 ≡ v / 256 % 256 * 2 ^ 16 =
      omega (arith, bit_and-shifted 8 v 255, bit_and-255 (v / 2 ^ 8)) in
    let e4 : bit_and v 0x000000ff * 2 ^ 24 ≡ v % 256 * 2 ^ 24 = omega (arith, bit_and-255 v) in
    rw (bswap32-bytes v h, e1, e2, e3, e4)
      (bit_or-bytes_down (v / 16777216) (v / 65536 % 256) (v / 256 % 256) (v % 256) (omega arith)
        (omega arith) (omega arith) (omega arith))

rtl_htons_i386 : (x : ℕ) → x < 2 ^ 16 → rtl_htons i386 x ≡ bswap16 x
unfolding rtl_htons bswap16
rtl_htons_i386 v h =
    let e0 : u16 v ≡ v = omega arith in
    let e1 : bit_and v 0xff00 / 2 ^ 8 ≡ v / 256 =
      omega (arith, bit_and-shifted 8 v 255, bit_and-255 (v / 2 ^ 8)) in
    let e2 : bit_and v 0x00ff * 2 ^ 8 ≡ v % 256 * 2 ^ 8 = omega (arith, bit_and-255 v) in
    let e3 = bit_or_comm 16 (v % 256 * 2 ^ 8) (v / 256) (omega arith) (omega arith) in
    rw (e0, e1, e2) (ap u16 e3)

-- The conversion of a word is a word, and converts back.
pub rtl_htonl-rtl_htonl :
    (t : Target) (x : ℕ) → x < 2 ^ 32 → (rtl_htonl t x < 2 ^ 32) × (rtl_htonl t (rtl_htonl t x) ≡ x)
unfolding rtl_htonl
rtl_htonl-rtl_htonl mips x h = (h, refl)
rtl_htonl-rtl_htonl i386 x h =
    let (small, back) = bswap32-bswap32 x h in
    rw (rtl_htonl_i386 x h, rtl_htonl_i386 (bswap32 x) small) (small, back)

pub rtl_htons-rtl_htons :
    (t : Target) (x : ℕ) → x < 2 ^ 16 → (rtl_htons t x < 2 ^ 16) × (rtl_htons t (rtl_htons t x) ≡ x)
unfolding rtl_htons
rtl_htons-rtl_htons mips x h = (h, refl)
rtl_htons-rtl_htons i386 x h =
    let (small, back) = bswap16-bswap16 x h in
    rw (rtl_htons_i386 x h, rtl_htons_i386 (bswap16 x) small) (small, back)

pub rtl_htons-lt : (t : Target) (x : ℕ) → x < 2 ^ 32 → rtl_htons t x < 2 ^ 32
unfolding rtl_htons
rtl_htons-lt mips x h = h
rtl_htons-lt i386 x h = omega arith
