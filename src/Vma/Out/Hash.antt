-- ===== src/Vma/Out/Hash.antt =====
-- The hashes of native calls: src/vma/vma_out.c against src/vm/vm_gen_thunks.pl.
use mette.Base.{
  ℕ, ◌+◌, ◌*◌, ◌/◌, ◌%◌, ◌^◌, ◌<◌, ◌≡◌, refl, arith, All, List, [], ◌∷◌, String, codes,
}
use mette.Base.{bit_xor, bit_xor-lt, bit_xor-word, lt→ltb}
use mette.Vm.Thunks.{make_hash, make_hash_from}
use mette.Vma.Out.{hash_name, hash_from}

abbrev pub IsAscii : ℕ → Type 0
IsAscii c = c < 128

hash_from-make_hash_from :
    (hash : ℕ) (cs : List ℕ)
    → hash < 2 ^ 32
    → All IsAscii cs
    → hash_from hash cs ≡ make_hash_from hash cs
unfolding hash_from make_hash_from
hash_from-make_hash_from hash [] small ascii = refl
hash_from-make_hash_from hash (c ∷ cs) small ascii =
    let high = hash / 2 ^ 16 in
    let same : (hash * 61 % 2 ^ 32 + c) % 2 ^ 32 ≡ (hash * 61 + c) % 2 ^ 32 = omega arith in
    let word = bit_xor-word (hash * 61 + c) high (omega arith) in
    let next : bit_xor ((hash * 61 + c) % 2 ^ 32) high < 2 ^ 32 =
      bit_xor-lt 32 ((hash * 61 + c) % 2 ^ 32) high (omega arith) (omega arith) in
    rw (lt→ltb c 128 ascii.0, same, word)
      (hash_from-make_hash_from (bit_xor ((hash * 61 + c) % 2 ^ 32) high) cs next ascii.1)

-- For a name of ASCII characters the assembler writes the hash that the table of native procedures
-- has for it.
pub hash_name-make_hash :
    (name : String) → All IsAscii (codes name) → hash_name name ≡ make_hash name
unfolding hash_name make_hash
hash_name-make_hash name ascii = hash_from-make_hash_from 0 (codes name) (omega arith) ascii
