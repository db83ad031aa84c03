-- ===== src/Native/Served/Blocks.antt =====
-- The procedures of src/vm_thunks/vmt_rtl.c take their arguments and put their results.
use mette.Base.{arith}
use mette.Vm.Memory.{Target}
use mette.Vm.Step.Valid.{IsWord}
use mette.Native.Act.{Host, arg}
use mette.Native.Uses.{Uses, Exactly, Any}
use mette.Native.Uses.Prims.{IsHost, give-Uses}
use mette.Native.Parts.{
  IsHalf, memset-Quiet, memcpy-Quiet, get_length-Quiet, get_size-Quiet, set_length-Quiet,
  alloc-Quiet, free-Quiet, resize-Quiet,
}
use mette.Native.Served.{arg-IsWord, with_args, put_result, answer, drop_answer}
use mette.Native.Strbuf.{get_buffer}
use mette.Native.Rtl

module _ (t : Target) (host : Host) (h : IsHost host) where
  pub thunk_alloc-Uses : Uses 1 (Exactly 1) Any (Rtl.thunk_alloc t host)
  unfolding Rtl.thunk_alloc
  thunk_alloc-Uses = with_args 1 (Exactly 1) _ λ xs _. answer t host h _

  pub thunk_realloc-Uses : Uses 2 (Exactly 1) Any (Rtl.thunk_realloc t host)
  unfolding Rtl.thunk_realloc
  thunk_realloc-Uses = with_args 2 (Exactly 1) _ λ xs _. answer t host h _

  pub thunk_free-Uses : Uses 1 (Exactly 0) Any (Rtl.thunk_free t host)
  unfolding Rtl.thunk_free
  thunk_free-Uses = with_args 1 (Exactly 0) _ λ xs _. drop_answer t host h _

  pub thunk_memset-Uses : Uses 3 (Exactly 0) Any (Rtl.thunk_memset t host)
  unfolding Rtl.thunk_memset
  thunk_memset-Uses =
      with_args 3 (Exactly 0) _ λ xs _. memset-Quiet (arg xs 0) (arg xs 1) (arg xs 2)

  pub thunk_memcpy-Uses : Uses 3 (Exactly 0) Any (Rtl.thunk_memcpy t host)
  unfolding Rtl.thunk_memcpy
  thunk_memcpy-Uses =
      with_args 3 (Exactly 0) _ λ xs _. memcpy-Quiet (arg xs 0) (arg xs 1) (arg xs 2)

  pub thunk_strbuf_alloc-Uses : Uses 1 (Exactly 1) Any (Rtl.thunk_strbuf_alloc t host)
  unfolding Rtl.thunk_strbuf_alloc
  thunk_strbuf_alloc-Uses =
      with_args 1 (Exactly 1) _
        λ xs _. put_result IsWord _ (λ a. a) (alloc-Quiet t host h (arg xs 0)) λ a w. w

  pub thunk_strbuf_free-Uses : Uses 1 (Exactly 0) Any (Rtl.thunk_strbuf_free t host)
  unfolding Rtl.thunk_strbuf_free
  thunk_strbuf_free-Uses = with_args 1 (Exactly 0) _ λ xs _. free-Quiet t host h (arg xs 0)

  pub thunk_strbuf_get_length-Uses : Uses 1 (Exactly 1) Any (Rtl.thunk_strbuf_get_length t host)
  unfolding Rtl.thunk_strbuf_get_length
  thunk_strbuf_get_length-Uses =
      with_args 1 (Exactly 1) _
        λ xs _. put_result IsHalf _ (λ a. a) (get_length-Quiet t (arg xs 0)) λ a w. omega (arith, w)

  pub thunk_strbuf_get_size-Uses : Uses 1 (Exactly 1) Any (Rtl.thunk_strbuf_get_size t host)
  unfolding Rtl.thunk_strbuf_get_size
  thunk_strbuf_get_size-Uses =
      with_args 1 (Exactly 1) _
        λ xs _. put_result IsHalf _ (λ a. a) (get_size-Quiet t (arg xs 0)) λ a w. omega (arith, w)

  pub thunk_strbuf_get_buffer-Uses : Uses 1 (Exactly 1) Any (Rtl.thunk_strbuf_get_buffer t host)
  unfolding Rtl.thunk_strbuf_get_buffer
  thunk_strbuf_get_buffer-Uses =
      with_args 1 (Exactly 1) _ λ xs _. give-Uses (get_buffer (arg xs 0)) (omega arith)

  pub thunk_strbuf_set_length-Uses : Uses 2 (Exactly 0) Any (Rtl.thunk_strbuf_set_length t host)
  unfolding Rtl.thunk_strbuf_set_length
  thunk_strbuf_set_length-Uses =
      with_args 2 (Exactly 0) _ λ xs _. set_length-Quiet t (arg xs 0) (arg xs 1)

  pub thunk_strbuf_resize-Uses : Uses 2 (Exactly 1) Any (Rtl.thunk_strbuf_resize t host)
  unfolding Rtl.thunk_strbuf_resize
  thunk_strbuf_resize-Uses = with_args 2 (Exactly 1) _ λ xs w.
      put_result IsWord _ (λ a. a) (resize-Quiet t host h (arg xs 0) (arg xs 1) (arg-IsWord xs 0 w))
        λ a w'. w'
