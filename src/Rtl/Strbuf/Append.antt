-- ===== src/Rtl/Strbuf/Append.antt =====
-- What the appending operations of src/rtl/rtl_strbuf.c do to the contents of a buffer.
use mathlib.Core.List.{append-nil, append_assoc}
use mette.Base.{
  ℕ, zero, suc, ◌+◌, ◌-◌, ◌≤◌, ◌<◌, ◌≡◌, ◌≢◌, refl, arith, List, [], ◌∷◌, ◌++◌, length, take, set,
  min,
}
use mette.Base.{u16, ◌^◌, Result, ok, length-set, lt→ltb, All, ap, ◌∙◌}
use mette.Base.{length-append, take-set_next, sym, take-append_eq}
use mette.Rtl.Xstring.{xmemcpy, xstrlen}
use mette.Rtl.Strbuf.{Strbuf, to_copy, append_bytes, append_asciiz}

pub record IsValid (sb : Strbuf) : Type 0 where
  pub within : sb.length ≤ sb.max_length
  pub bounded : sb.max_length < 2 ^ 16
  pub sized : length sb.bytes ≡ sb.max_length

abbrev pub contents : Strbuf → List ℕ
contents sb = take sb.length sb.bytes

-- A block after a copy into it.
xmemcpy_lem :
    (block : List ℕ) (dest : ℕ) (src : List ℕ) (count : ℕ)
    → dest + count ≤ length block
    → count ≤ length src
    → (block' : List ℕ) × (xmemcpy block dest src count ≡ ok block')
      × (length block' ≡ length block)
      × (take (dest + count) block' ≡ take dest block ++ take count src)
unfolding xmemcpy
xmemcpy_lem block dest src zero fits enough =
    let none_more : dest + 0 ≡ dest = omega arith in
    (block, refl, refl, rw none_more (sym (append-nil (take dest block))))
xmemcpy_lem block dest [] (suc count) fits enough = absurd (omega arith)
xmemcpy_lem block dest (c ∷ src) (suc count) fits enough =
    let kept = length-set block dest c in
    let (block', copied, sized, taken) =
      xmemcpy_lem (set block dest c) (suc dest) src count (omega arith) (omega arith) in
    let next : dest + suc count ≡ suc dest + count = omega arith in
    (
      block',
      rw (lt→ltb dest (length block) (omega arith)) copied,
      sized ∙ kept,
      rw next (
          taken
          ∙ ap (λ l. l ++ take count src) (take-set_next block dest c (omega arith))
          ∙ append_assoc (take dest block) (c ∷ []) (take count src)),
    )

module _ (sb : Strbuf) (v : IsValid sb) where
  to_copy-room : (count : ℕ) → to_copy sb count ≡ min count (sb.max_length - sb.length)
  to_copy-room count = let within = v.within in ground arith

  append_bytes-ok :
      (src block : List ℕ) (count n : ℕ)
      → to_copy sb count ≡ n
      → xmemcpy sb.bytes sb.length src n ≡ ok block
      → sb.length + n < 2 ^ 16
      → append_bytes sb src count ≡ ok (record sb { length = sb.length + n; bytes = block })
  unfolding append_bytes
  append_bytes-ok src block count n copied copy small =
      let short : u16 (sb.length + n) ≡ sb.length + n = omega arith in rw (copied, copy, short) refl

  -- On a valid buffer `rtl_strbuf_append_bytes` never fails: it appends as many bytes of the
  -- source as there is room for, and leaves the buffer valid and of the same size.
  pub append_bytes-contents :
      (src : List ℕ) (count : ℕ)
      → count ≤ length src
      → (sb' : Strbuf) × (append_bytes sb src count ≡ ok sb')
        × IsValid sb'
        × (sb'.max_length ≡ sb.max_length)
        × (contents sb' ≡ contents sb ++ take (min count (sb.max_length - sb.length)) src)
  append_bytes-contents src count enough =
      let n : ℕ = min count (sb.max_length - sb.length) in
      let within = v.within in
      let bounded = v.bounded in
      let sized = v.sized in
      let (block, copy, same, taken) =
        xmemcpy_lem sb.bytes sb.length src n (omega arith) (omega arith) in
      (
        record sb { length = sb.length + n; bytes = block },
        append_bytes-ok src block count n (to_copy-room count) copy (omega arith),
        record { within = omega arith; bounded = v.bounded; sized = omega arith },
        refl,
        taken,
      )

xstrlen_lem :
    (text rest : List ℕ)
    → All (λ c. c ≢ 0) text
    → xstrlen (text ++ (0 ∷ rest)) ≡ ok (suc (length text))
unfolding xstrlen
xstrlen_lem [] rest h = refl
xstrlen_lem (zero ∷ text) rest h = absurd (h.0 refl)
xstrlen_lem (suc c ∷ text) rest h = rw (xstrlen_lem text rest h.1)

append_asciiz-ok :
    (sb : Strbuf) (asciiz : List ℕ) (n : ℕ) (r : Result Strbuf)
    → xstrlen asciiz ≡ ok n
    → n < 2 ^ 16
    → append_bytes sb asciiz n ≡ r
    → append_asciiz sb asciiz ≡ r
unfolding append_asciiz
append_asciiz-ok sb asciiz n r measured small appended =
    let short : u16 n ≡ n = omega arith in rw (measured, append_asciiz) (rw short appended)

-- On a valid buffer with room for a text and its terminator, `rtl_strbuf_append_asciiz` appends
-- both the text and the terminator.
pub append_asciiz-contents :
    (sb : Strbuf) (text rest : List ℕ)
    → IsValid sb
    → All (λ c. c ≢ 0) text
    → length text < sb.max_length - sb.length
    → (sb' : Strbuf) × (append_asciiz sb (text ++ (0 ∷ rest)) ≡ ok sb')
      × (contents sb' ≡ contents sb ++ (text ++ (0 ∷ [])))
append_asciiz-contents sb text rest v nonzero room =
    let bounded = v.bounded in
    let (sb', appended, _, _, grown) =
      append_bytes-contents sb v (text ++ (0 ∷ rest)) (suc (length text))
        (omega (arith, length-append text (0 ∷ rest))) in
    let all : min (suc (length text)) (sb.max_length - sb.length) ≡ suc (length text) =
      omega arith in
    (
      sb',
      append_asciiz-ok sb (text ++ (0 ∷ rest)) (suc (length text)) (ok sb')
          (xstrlen_lem text rest nonzero) (omega arith) appended,
      grown
          ∙ ap (λ n. contents sb ++ take n (text ++ (0 ∷ rest))) all
          ∙ ap (λ l. contents sb ++ l)
              (ap (λ l. take (suc (length text)) l) (sym (append_assoc text (0 ∷ []) rest))
                ∙ take-append_eq (suc (length text)) (text ++ (0 ∷ [])) rest
                    (omega (arith, length-append text (0 ∷ [])))),
    )
