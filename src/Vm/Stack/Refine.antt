-- ===== src/Vm/Stack/Refine.antt =====
-- src/vm/vm_stack.c implements the bounded stack of `Spec`.
use mette.Base.{
  ℕ, zero, suc, ◌+◌, ◌-◌, ◌/◌, ◌≤◌, ◌≡◌, refl, ap, sym, ◌∙◌, arith, List, [], ◌∷◌, ◌++◌,
}
use mette.Base.{true, length, set, take, drop, replicate}
use mette.Base.{Result, ok, ◌>>=◌, Returns}
use mette.Base.{
  drop_step, drop-drop, drop-all, length-take, length-set, length-drop, length-replicate,
}
use mette.Vm.Stack.{Stack, create, store_from, load_from, push3, pop3}
use mette.Vm.Stack.Spec

module _ {A : Type 0} where
  -- The region holds all cells up to `bottom`, and the pointers are in order.
  pub record IsValid (s : Stack A) : Type 0 where
    pub region : s.bottom ≡ length s.mem
    pub base : s.limit ≡ 0
    pub in_region : s.top ≤ s.bottom

  -- The operands on the stack, the topmost first.
  abbrev pub contents : Stack A → List A
  contents s = drop s.top s.mem

  abbrev pub depth : Stack A → ℕ
  depth s = s.bottom - s.top

  pub length-contents : (s : Stack A) → IsValid s → length (contents s) ≡ depth s
  length-contents s v = omega (arith, length-drop s.top s.mem)

  store_from-cons :
      (c : A) (cs : List A) (i : ℕ) (src : List A)
      → store_from (c ∷ cs) (suc i) src ≡ c ∷ store_from cs i src
  unfolding store_from
  store_from-cons c cs i [] = refl
  store_from-cons c cs i (v ∷ src) = store_from-cons c (set cs i v) (suc i) src

  length-store_from :
      (mem : List A) (i : ℕ) (src : List A) → length (store_from mem i src) ≡ length mem
  unfolding store_from
  length-store_from mem i [] = refl
  length-store_from mem i (v ∷ src) =
      length-store_from (set mem i v) (suc i) src ∙ length-set mem i v

  drop-store_from :
      (mem : List A) (i : ℕ) (src : List A)
      → i + length src ≤ length mem
      → drop i (store_from mem i src) ≡ src ++ drop (i + length src) mem
  unfolding store_from
  drop-store_from mem zero [] h = let e : 0 ≡ 0 + 0 = omega arith in ap (λ k. drop k mem) e
  drop-store_from [] zero (v ∷ src) h = absurd (omega arith)
  drop-store_from (c ∷ cs) zero (v ∷ src) h =
      let e : 0 + suc (length src) ≡ suc (0 + length src) = omega arith in
      rw (e, store_from-cons) (ap (λ t. v ∷ t) (drop-store_from cs 0 src (omega arith)))
  drop-store_from [] (suc i) src h = absurd (omega arith)
  drop-store_from (c ∷ cs) (suc i) src h =
      let e : suc i + length src ≡ suc (i + length src) = omega arith in
      rw (e, store_from-cons) (drop-store_from cs i src (omega arith))

  load_from-drop :
      (mem : List A) (i count : ℕ)
      → i + count ≤ length mem
      → load_from mem i count ≡ ok (take count (drop i mem))
  unfolding load_from
  load_from-drop mem i zero h = refl
  load_from-drop mem i (suc count) h =
      let (v, e, d) = drop_step mem i (omega arith) in
      rw (e, d, load_from-drop mem (suc i) count (omega arith)) refl

  -- The observable part of a result: the contents of the stack that it returns.
  abbrev pub view : Result (Stack A) → Result (List A)
  view r = r >>= λ s. ok (contents s)

  abbrev pub view_popped : Result (List A × Stack A) → Result (List A × List A)
  view_popped r = r >>= λ p. ok (p.0, contents p.1)

  -- On a valid stack `vm_stack_push3` does what a push on the bounded list does, its capacity the
  -- number of words of the region: the same contents, or an overflow panic exactly where the list
  -- has no room.
  pub push3_refines :
      (s : Stack A) (src : List A)
      → IsValid s
      → view (push3 s src) ≡ Spec.push_all s.bottom src (contents s)
  unfolding push3 Spec.push_all
  push3_refines s src v =
      ground (arith, length-contents s v, drop-store_from s.mem (s.top - length src) src)

  -- On a valid stack `vm_stack_pop3` does what a pop from the list does: the same operands and the
  -- same contents, or an underflow panic exactly where the list has too few.
  pub pop3_refines :
      (s : Stack A) (count : ℕ)
      → IsValid s
      → view_popped (pop3 s count) ≡ Spec.pop_all count (contents s)
  unfolding pop3 Spec.pop_all
  pop3_refines s count v =
      ground
        (arith, length-contents s v, load_from-drop s.mem s.top count, drop-drop s.top count s.mem)

  pub push3-IsValid :
      (s : Stack A) (src : List A)
      → IsValid s
      → Returns
          (λ t. IsValid t × (depth t ≡ depth s + length src) × (t.bottom ≡ s.bottom))
          (push3 s src)
  unfolding push3
  push3-IsValid s src v = ground (arith, length-store_from s.mem (s.top - length src) src)

  pub pop3-IsValid :
      (s : Stack A) (count : ℕ)
      → IsValid s
      → Returns
          (λ p.
            (length p.0 ≡ count)
            × IsValid p.1
            × (depth s ≡ depth p.1 + count)
            × (p.1.bottom ≡ s.bottom))
          (pop3 s count)
  unfolding pop3
  pop3-IsValid s count v = ground (
    arith,
    load_from-drop s.mem s.top count,
    length-drop s.top s.mem,
    length-take count (drop s.top s.mem),
  )

  -- `vm_stack_create` gives an empty valid stack with room for `max_size / 4` operands.
  pub create_lem :
      (null : A) (max_size : ℕ)
      → Returns
          (λ s. IsValid s × (contents s ≡ []) × (depth s ≡ 0) × (s.bottom ≡ max_size / 4))
          (create null true true max_size)
  unfolding create
  create_lem null n = (
    record { region = sym (length-replicate (n / 4) null); base = refl; in_region = omega arith },
    drop-all (replicate (n / 4) null) (n / 4) (length-replicate (n / 4) null),
    omega arith,
    refl,
  )
