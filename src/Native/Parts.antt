-- ===== src/Native/Parts.antt =====
-- What the string buffers and the sets of descriptors do to the machine: the data stack stays,
-- and what they answer are words.
use mette.Base.{
  ℕ, zero, suc, ◌+◌, ◌<◌, ◌^◌, ◌≡◌, refl, arith, List, [], ◌∷◌, ◌++◌, Bool, true, false,
}
use mette.Base.{if◌then◌else◌, ltb, add32, u16, min}
use mette.Vm.Memory.{Target, store8}
use mette.Vm.Memory.Laws.{load8-lt, load16-lt, store8-IsBytes, store16-IsBytes}
use mette.Vm.Step.Valid.{IsWord}
use mette.Native.Act.{Act, Host, ◌>>=◌, store}
use mette.Native.Uses.{Uses, Quiet, Exactly, Any, bind-Uses}
use mette.Native.Uses.Prims.{IsHost, pure-Quiet, call-Quiet, load-Quiet, store-Quiet}
use mette.Native.Strbuf.{
  memset, memcpy, bytes_at, get_buffer, get_length, get_size, put_length, put_size, set_length,
  to_asciiz, alloc, free, grow, resize,
}

abbrev pub IsHalf : ℕ → Type 0
IsHalf v = v < 2 ^ 16

pub Quiet-bind :
    {A B : Type 0} (L : ℕ → Type 0) (P : A → Type 0) (Q : B → Type 0) (m : Act A) (f : A → Act B)
    → Quiet P m
    → ((a : A) → P a → Uses 0 L Q (f a))
    → Uses 0 L Q (m >>= f)
Quiet-bind L P Q m f h k =
    bind-Uses 0 0 0 (Exactly 0) L L P Q m f refl h k
      λ i j e l. let e' : i + j ≡ j = omega (arith, e) in rw (e') l

pub Quiet-if :
    {A : Type 0} (Q : A → Type 0) (b : Bool) (m n : Act A)
    → Quiet Q m
    → Quiet Q n
    → Quiet Q (if b then m else n)
Quiet-if Q true m n h k = h
Quiet-if Q false m n h k = k

pub store8-Quiet : (addr v : ℕ) → Quiet Any (store (λ m. store8 m addr v))
store8-Quiet addr v = store-Quiet _ λ m. store8-IsBytes m addr v

pub memset-Quiet : (dest c count : ℕ) → Quiet Any (memset dest c count)
unfolding memset
memset-Quiet dest c zero = pure-Quiet Any tt tt
memset-Quiet dest c (suc count) =
    Quiet-bind (Exactly 0) Any Any _ _ (store8-Quiet dest c)
      λ _ _. memset-Quiet (add32 dest 1) c count

pub memcpy-Quiet : (dest src count : ℕ) → Quiet Any (memcpy dest src count)
unfolding memcpy
memcpy-Quiet dest src zero = pure-Quiet Any tt tt
memcpy-Quiet dest src (suc count) =
    Quiet-bind (Exactly 0) (λ c. c < 256) Any _ _ (load-Quiet _ _ λ m. load8-lt m src)
      λ c _.
        Quiet-bind (Exactly 0) Any Any _ _ (store8-Quiet dest c)
          λ _ _. memcpy-Quiet (add32 dest 1) (add32 src 1) count

pub bytes_at-Quiet : (src count : ℕ) → Quiet Any (bytes_at src count)
unfolding bytes_at
bytes_at-Quiet src zero = pure-Quiet {A = List ℕ} Any [] tt
bytes_at-Quiet src (suc count) =
    Quiet-bind (Exactly 0) (λ c. c < 256) Any _ _ (load-Quiet _ _ λ m. load8-lt m src)
      λ c _.
        Quiet-bind (Exactly 0) Any Any _ _ (bytes_at-Quiet (add32 src 1) count)
          λ rest _. pure-Quiet Any (c ∷ rest) tt

module _ (t : Target) where
  pub get_length-Quiet : (sb : ℕ) → Quiet IsHalf (get_length t sb)
  unfolding get_length
  get_length-Quiet sb = load-Quiet IsHalf _ λ m. load16-lt t m sb

  pub get_size-Quiet : (sb : ℕ) → Quiet IsHalf (get_size t sb)
  unfolding get_size
  get_size-Quiet sb = load-Quiet IsHalf _ λ m. load16-lt t m (add32 sb 2)

  put_length-Quiet : (sb length : ℕ) → Quiet Any (put_length t sb length)
  unfolding put_length
  put_length-Quiet sb length = store-Quiet _ λ m. store16-IsBytes t m sb length

  put_size-Quiet : (sb size : ℕ) → Quiet Any (put_size t sb size)
  unfolding put_size
  put_size-Quiet sb size = store-Quiet _ λ m. store16-IsBytes t m (add32 sb 2) size

  pub set_length-Quiet : (sb length : ℕ) → Quiet Any (set_length t sb length)
  unfolding set_length
  set_length-Quiet sb length =
      Quiet-bind (Exactly 0) IsHalf Any _ _ (get_size-Quiet sb)
        λ max_length _. put_length-Quiet sb (min max_length (u16 length))

  pub to_asciiz-Quiet : (sb : ℕ) → Quiet Any (to_asciiz t sb)
  unfolding to_asciiz
  to_asciiz-Quiet sb = Quiet-bind (Exactly 0) IsHalf Any _ _ (get_length-Quiet sb) λ length _.
      Quiet-bind (Exactly 0) Any Any _ _ (bytes_at-Quiet (get_buffer sb) length)
        λ bytes _. pure-Quiet Any (bytes ++ (0 ∷ [])) tt

  module _ (host : Host) (h : IsHost host) where
    pub alloc-Quiet : (size : ℕ) → Quiet IsWord (alloc t host size)
    unfolding alloc
    alloc-Quiet size = Quiet-bind (Exactly 0) IsWord IsWord _ _ (call-Quiet host _ h) λ sb w.
        Quiet-bind (Exactly 0) Any IsWord _ _ (put_length-Quiet sb 0) λ _ _.
          Quiet-bind (Exactly 0) Any IsWord _ _ (put_size-Quiet sb _) λ _ _. pure-Quiet IsWord sb w

    pub free-Quiet : (sb : ℕ) → Quiet Any (free t host sb)
    unfolding free
    free-Quiet sb =
        Quiet-bind (Exactly 0) IsWord Any _ _ (call-Quiet host _ h) λ _ _. pure-Quiet Any tt tt

    grow-Quiet : (sb size : ℕ) → Quiet IsWord (grow t host sb size)
    unfolding grow
    grow-Quiet sb size = Quiet-bind (Exactly 0) IsWord IsWord _ _ (call-Quiet host _ h) λ sb' w.
        Quiet-bind (Exactly 0) IsHalf IsWord _ _ (get_length-Quiet sb') λ length _.
          Quiet-bind (Exactly 0) Any IsWord _ _
            (Quiet-if Any (ltb size length) _ _ (put_length-Quiet sb' size) (pure-Quiet Any tt tt))
            λ _ _.
              Quiet-bind (Exactly 0) Any IsWord _ _ (put_size-Quiet sb' size)
                λ _ _. pure-Quiet IsWord sb' w

    pub resize-Quiet : (sb size : ℕ) → IsWord sb → Quiet IsWord (resize t host sb size)
    unfolding resize
    resize-Quiet sb size w =
        Quiet-bind (Exactly 0) IsHalf IsWord _ _ (get_size-Quiet sb) λ max_length _.
          Quiet-if IsWord (ltb max_length (u16 size)) _ _ (grow-Quiet sb (u16 size))
            (pure-Quiet IsWord sb w)
