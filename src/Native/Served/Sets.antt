-- ===== src/Native/Served/Sets.antt =====
-- The procedures of src/vm_thunks/vmt_select.c take their arguments and put their results.
use mette.Base.{ℕ, arith, ◌==◌, Bool, true, false}
use mette.Base.{Returns-if, if◌then◌else◌, add32, bit_and, zero, suc}
use mette.Vm.Memory.{Target}
use mette.Vm.Memory.Laws.{load32-lt, store32-IsBytes}
use mette.Vm.Step.Valid.{IsWord}
use mette.Native.Act.{Act, Host, arg, is_negative}
use mette.Native.Uses.{Uses, Quiet, Exactly, Any}
use mette.Native.Uses.Prims.{IsHost, give-Uses, pure-Quiet, call-Quiet, load-Quiet, store-Quiet}
use mette.Native.Parts.{Quiet-bind}
use mette.Native.Served.{with_args, put_result, answer}
use mette.Native.Select
use mette.Native.Select.{with_bit, fd_zero, fd_set, fd_clr, fd_isset, fd_word, fd_mask}

with_bit-Quiet :
    {A : Type 0} (Q : A → Type 0) (fd : ℕ) (m : Act A) → Quiet Q m → Quiet Q (with_bit fd m)
with_bit-Quiet Q fd m k ctx v = Returns-if _ (is_negative fd) _ _ tt (k ctx v)

flag-IsWord : (b : Bool) → IsWord (if b then 0 else 1)
flag-IsWord true = omega arith
flag-IsWord false = omega arith

module _ (t : Target) (host : Host) (h : IsHost host) (fortified : Bool) where
  fd_zero-Quiet : (fds words : ℕ) → Quiet Any (fd_zero t host fortified fds words)
  unfolding fd_zero
  fd_zero-Quiet fds zero = pure-Quiet Any tt tt
  fd_zero-Quiet fds (suc words) =
      Quiet-bind (Exactly 0) Any Any _ _ (store-Quiet _ λ m. store32-IsBytes t m fds 0)
        λ _ _. fd_zero-Quiet (add32 fds 4) words

  fd_set-Quiet : (fd fds : ℕ) → Quiet Any (fd_set t host fortified fd fds)
  unfolding fd_set
  fd_set-Quiet fd fds = with_bit-Quiet Any fd _ (
      Quiet-bind (Exactly 0) IsWord Any _ _
        (load-Quiet _ _ λ m. load32-lt t m (fd_word fortified fds fd))
        λ w _. store-Quiet _ λ m. store32-IsBytes t m (fd_word fortified fds fd) _)

  fd_clr-Quiet : (fd fds : ℕ) → Quiet Any (fd_clr t host fortified fd fds)
  unfolding fd_clr
  fd_clr-Quiet fd fds = with_bit-Quiet Any fd _ (
      Quiet-bind (Exactly 0) IsWord Any _ _
        (load-Quiet _ _ λ m. load32-lt t m (fd_word fortified fds fd))
        λ w _. store-Quiet _ λ m. store32-IsBytes t m (fd_word fortified fds fd) _)

  fd_isset-Quiet : (fd fds : ℕ) → Quiet IsWord (fd_isset t host fortified fd fds)
  unfolding fd_isset
  fd_isset-Quiet fd fds = with_bit-Quiet IsWord fd _ (
      Quiet-bind (Exactly 0) IsWord IsWord _ _
        (load-Quiet _ _ λ m. load32-lt t m (fd_word fortified fds fd))
        λ w _. pure-Quiet IsWord _ (flag-IsWord (bit_and w (fd_mask fd) == 0)))

  pub fdset_create-Uses : Uses 0 (Exactly 1) Any (Select.fdset_create t host fortified)
  unfolding Select.fdset_create
  fdset_create-Uses =
      Quiet-bind (Exactly 1) IsWord Any _ _ (call-Quiet host _ h)
        λ fds w. Quiet-bind (Exactly 1) Any Any _ _ (fd_zero-Quiet fds 32) λ _ _. give-Uses fds w

  pub fdset_set-Uses : Uses 2 (Exactly 0) Any (Select.fdset_set t host fortified)
  unfolding Select.fdset_set
  fdset_set-Uses = with_args 2 (Exactly 0) _ λ xs _. fd_set-Quiet (arg xs 1) (arg xs 0)

  pub fdset_clear-Uses : Uses 2 (Exactly 0) Any (Select.fdset_clear t host fortified)
  unfolding Select.fdset_clear
  fdset_clear-Uses = with_args 2 (Exactly 0) _ λ xs _. fd_clr-Quiet (arg xs 1) (arg xs 0)

  pub fdset_check-Uses : Uses 2 (Exactly 1) Any (Select.fdset_check t host fortified)
  unfolding Select.fdset_check
  fdset_check-Uses =
      with_args 2 (Exactly 1) _
        λ xs _. put_result IsWord _ (λ a. a) (fd_isset-Quiet (arg xs 1) (arg xs 0)) λ a w. w

  pub io_select-Uses : Uses 4 (Exactly 1) Any (Select.io_select t host fortified)
  unfolding Select.io_select
  io_select-Uses = with_args 4 (Exactly 1) _ λ xs _. answer t host h _
