-- ===== src/Rtl/Xstring.antt =====
-- src/sysdep/xstring.c. A block of memory is the list of its bytes; an access behind its end is
-- a fault.
use mette.Base.{ℕ, zero, suc, List, [], ◌∷◌, length, set, u8, ltb, if◌then◌else◌}
use mette.Base.{Result, ok, fault, bad_access, ◌>>=◌}

-- `xmemcpy` to the bytes from `dest` on in a block.
unfoldable pub xmemcpy : List ℕ → ℕ → List ℕ → ℕ → Result (List ℕ)
xmemcpy block dest src zero = ok block
xmemcpy block dest [] (suc count) = fault bad_access
xmemcpy block dest (c ∷ src) (suc count) =
    let rest = xmemcpy (set block dest c) (suc dest) src count in
    if ltb dest (length block) then rest else fault bad_access

-- `xmemset`, likewise.
unfoldable pub xmemset : List ℕ → ℕ → ℕ → ℕ → Result (List ℕ)
xmemset block dest c zero = ok block
xmemset block dest c (suc count) =
    let rest = xmemset (set block dest (u8 c)) (suc dest) c count in
    if ltb dest (length block) then rest else fault bad_access

-- `xstrlen`: the cursor stops behind the terminator.
unfoldable pub xstrlen : List ℕ → Result ℕ
xstrlen [] = fault bad_access
xstrlen (zero ∷ str) = ok 1
xstrlen (suc c ∷ str) = do n ← xstrlen str; ok (suc n)
