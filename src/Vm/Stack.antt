-- ===== src/Vm/Stack.antt =====
-- src/vm/vm_stack.c. A stack grows down in a mapped region of words. The region is the list
-- `mem`, and the pointers `limit`, `top` and `bottom` are word indices into it.
pub mod Spec
pub mod Refine
pub mod RoundTrip
pub mod Items
use mette.Base.{
  ℕ, zero, suc, length, ◌+◌, ◌-◌, ◌/◌, Bool, true, false, ltb, if◌then◌else◌, ◌&&◌, not,
}
use mette.Base.{Option, some, none, List, [], ◌∷◌, get_elem?, set, replicate}
use mette.Base.{Result, ok, panic, fault, ◌>>=◌, access}
use mette.Base.{stack_alloc_failed, stack_mmap_failed, stack_overflow, stack_underflow}

-- `vm_stack_t`. The cells are operands; a cell of the control stack holds a frame pointer.
pub record Stack {ℓ} (A : Type ℓ) : Type ℓ where
  pub bottom : ℕ
  pub limit : ℕ
  pub top : ℕ
  pub mem : List A

module _ {ℓ} {A : Type ℓ} where
  -- `allocated` and `mapped` say whether `vm_alloc` and `vm_mmap` succeed. Anonymous memory is
  -- zero, and a word is 4 bytes.
  unfoldable pub create : A → Bool → Bool → ℕ → Result (Stack A)
  create null false mapped max_size = panic stack_alloc_failed
  create null true false max_size = panic stack_mmap_failed
  create null true true max_size = ok (record {
    bottom = max_size / 4;
    limit = 0;
    top = max_size / 4;
    mem = replicate (max_size / 4) null;
  })

  -- The loop of `vm_stack_push3`: `top[offset] = src[offset]`.
  unfoldable pub store_from : List A → ℕ → List A → List A
  store_from mem i [] = mem
  store_from mem i (v ∷ src) = store_from (set mem i v) (suc i) src

  -- The loop of `vm_stack_pop3`: `dst[offset] = top[offset]`, for `count` operands.
  unfoldable pub load_from : List A → ℕ → ℕ → Result (List A)
  load_from mem i zero = ok []
  load_from mem i (suc count) = do
    v ← access (get_elem? mem i)
    rest ← load_from mem (suc i) count
    ok (v ∷ rest)

  -- `vm_stack_push3`; `count` is the length of `src`. `top - count < limit` is an order of
  -- addresses, and `-` on ℕ stops at 0, so the count stands on the other side.
  unfoldable pub push3 : Stack A → List A → Result (Stack A)
  unfolding store_from
  push3 stack src =
      if ltb stack.top (stack.limit + length src)
      then panic stack_overflow
      else ok (record stack {
        top = stack.top - length src;
        mem = store_from stack.mem (stack.top - length src) src;
      })

  unfoldable pub push : Stack A → A → Result (Stack A)
  unfolding push3
  push stack src = push3 stack (src ∷ [])

  -- `vm_stack_pop3`: what goes to `dst`, and the stack.
  unfoldable pub pop3 : Stack A → ℕ → Result (List A × Stack A)
  unfolding load_from
  pop3 stack count =
      let loaded = load_from stack.mem stack.top count in
      if ltb stack.bottom (stack.top + count)
      then panic stack_underflow
      else (do dst ← loaded; ok (dst, record stack { top = stack.top + count }))

  -- `vm_stack_pop`, with the local `v` that `vm_stack_pop3` fills.
  unfoldable pub pop : Stack A → Result (A × Stack A)
  unfolding pop3
  pop stack = do (dst, stack') ← pop3 stack 1; v ← access (get_elem? dst 0); ok (v, stack')

  -- `vm_stack_top`.
  unfoldable pub stack_top : Stack A → ℕ
  stack_top stack = stack.top
