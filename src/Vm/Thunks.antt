-- ===== src/Vm/Thunks.antt =====
-- src/vm/vm_thunks.c: the table of native procedures, and its search by hash; and
-- src/vm/vm_gen_thunks.pl, which computes the hashes.
pub mod Laws
use mette.Base.{String, codes, bit_xor, u32, ◌+◌, ◌*◌, ◌/◌, ◌^◌}
use mette.Base.{ℕ, List, [], ◌∷◌, ◌==◌, if◌then◌else◌}

-- `vm_thunk_record_t`. The table runs from `vm_thunks` to the linker's `vm_thunks_end`.
pub record ThunkRecord : Type 0 where
  pub hash : ℕ
  pub proc : ℕ

-- `vm_lookup_thunk`; the null pointer, 0, if the hash is not in the table.
unfoldable pub lookup_thunk : List ThunkRecord → ℕ → ℕ
lookup_thunk [] hash = 0
lookup_thunk (thunk ∷ rest) hash = if thunk.hash == hash then thunk.proc else lookup_thunk rest hash

-- `make_hash` of src/vm/vm_gen_thunks.pl, from which the records get their hashes.
unfoldable pub make_hash_from : ℕ → List ℕ → ℕ
make_hash_from hash [] = hash
make_hash_from hash (c ∷ cs) = make_hash_from (u32 (bit_xor (hash * 61 + c) (hash / 2 ^ 16))) cs

unfoldable pub make_hash : String → ℕ
unfolding make_hash_from
make_hash name = make_hash_from 0 (codes name)
