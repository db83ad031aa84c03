-- ===== src/Native/Served.antt =====
-- The shapes of the native procedures: arguments, an act, and a result.
pub mod Files
pub mod Blocks
pub mod Net
pub mod Sets
use mette.Base.{
  ℕ, ◌+◌, ◌<◌, ◌^◌, ◌≡◌, ◌⊎◌, inl, inr, refl, arith, List, All, get_or, ltb, true, false, Bool,
}
use mette.Base.{if◌then◌else◌, add32}
use mette.Vm.Memory.{Target}
use mette.Vm.Step.Valid.{IsWord}
use mette.Vm.Step.Invariant.{get_or-IsWord}
use mette.Native.Act.{Act, Host, Call, pure, ◌>>=◌, ◌>>◌, args, arg, give, call, is_negative}
use mette.Native.Uses.{Uses, Quiet, Exactly, Any, bind-Uses}
use mette.Native.Uses.Prims.{IsHost, args-Uses, give-Uses, pure-Quiet, call-Quiet}
use mette.Native.Parts.{
  IsHalf, Quiet-bind, Quiet-if, memset-Quiet, memcpy-Quiet, get_length-Quiet, get_size-Quiet,
  set_length-Quiet, to_asciiz-Quiet, alloc-Quiet, free-Quiet, resize-Quiet,
}
use mette.Native.Strbuf.{get_buffer}
use mette.Native.Io
use mette.Native.Rtl

pub arg-IsWord : (xs : List ℕ) (i : ℕ) → All IsWord xs → IsWord (arg xs i)
arg-IsWord xs i h = get_or-IsWord xs i 0 h (omega arith)

-- A procedure with `n` arguments.
pub with_args :
    (n : ℕ) (L : ℕ → Type 0) (f : List ℕ → Act (Unit {0}))
    → ((xs : List ℕ) → All IsWord xs → Uses 0 L Any (f xs))
    → Uses n L Any (args n >>= f)
with_args n L f h =
    bind-Uses n 0 n (Exactly 0) L L (All IsWord) Any (args n) f (omega arith) (args-Uses n) h
      λ i j e l. let e' : i + j ≡ j = omega (arith, e) in rw (e') l

-- The result of an act is put.
pub put_result :
    {A : Type 0} (Q : A → Type 0) (m : Act A) (value : A → ℕ)
    → Quiet Q m
    → ((a : A) → Q a → IsWord (value a))
    → Uses 0 (Exactly 1) Any (m >>= λ a. give (value a))
put_result Q m value h k = Quiet-bind (Exactly 1) Q Any m _ h λ a q. give-Uses (value a) (k a q)

module _ (t : Target) (host : Host) (h : IsHost host) where
  -- The answer of a call is put.
  pub answer : (c : Call) → Uses 0 (Exactly 1) Any (call host c >>= give)
  answer c = put_result IsWord (call host c) (λ a. a) (call-Quiet host c h) λ a w. w

  -- The answer of a call is dropped.
  pub drop_answer : (c : Call) → Quiet Any (call host c >>= λ _. pure tt)
  drop_answer c =
      Quiet-bind (Exactly 0) IsWord Any _ _ (call-Quiet host c h) λ _ _. pure-Quiet Any tt tt
