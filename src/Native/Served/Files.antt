-- ===== src/Native/Served/Files.antt =====
-- The procedures of src/vm_thunks/vmt_io.c and src/vm_thunks/vmt_misc.c take their arguments and put
-- their results.
use mette.Base.{ℕ, ◌+◌, ◌≡◌, ◌⊎◌, inl, inr, refl, arith, Bool, true, false}
use mette.Base.{if◌then◌else◌}
use mette.Vm.Memory.{Target}
use mette.Vm.Step.Valid.{IsWord}
use mette.Native.Act.{Host, pure, ◌>>◌, arg, give, is_negative}
use mette.Native.Uses.{Uses, Exactly, Any, bind-Uses, wider}
use mette.Native.Uses.Prims.{IsHost, give-Uses, pure-Quiet, call-Quiet}
use mette.Native.Parts.{
  IsHalf, Quiet-bind, get_length-Quiet, get_size-Quiet, set_length-Quiet, to_asciiz-Quiet,
  alloc-Quiet, free-Quiet,
}
use mette.Native.Served.{with_args, answer, drop_answer}
use mette.Native.Strbuf.{free}
use mette.Native.Io

-- A failed read puts the null pointer and the buffer.
abbrev pub OneOrTwo : ℕ → Type 0
OneOrTwo k = (k ≡ 1) ⊎ (k ≡ 2)

abbrev AtMostOne : ℕ → Type 0
AtMostOne k = (k ≡ 0) ⊎ (k ≡ 1)

module _ (t : Target) (host : Host) (h : IsHost host) where
  pub io_open-Uses : Uses 3 (Exactly 1) Any (Io.io_open t host)
  unfolding Io.io_open
  io_open-Uses = with_args 3 (Exactly 1) _ λ xs _.
      Quiet-bind (Exactly 1) Any Any _ _ (to_asciiz-Quiet t (arg xs 0)) λ path _. answer t host h _

  failed_read : (sb : ℕ) → Uses 0 (Exactly 1) Any (free t host sb >> give 0)
  failed_read sb =
      Quiet-bind (Exactly 1) Any Any _ _ (free-Quiet t host h sb) λ _ _. give-Uses 0 (omega arith)

  tested_read :
      (b : Bool) (sb : ℕ) → Uses 0 AtMostOne Any (if b then (free t host sb >> give 0) else pure tt)
  tested_read true sb = wider 0 (Exactly 1) AtMostOne Any _ (failed_read sb) λ _. inr
  tested_read false sb = wider 0 (Exactly 0) AtMostOne Any (pure tt) (pure-Quiet Any tt tt) λ _. inl

  pub io_read-Uses : Uses 2 OneOrTwo Any (Io.io_read t host)
  unfolding Io.io_read
  io_read-Uses = with_args 2 OneOrTwo _ λ xs _.
      Quiet-bind OneOrTwo IsWord Any _ _ (alloc-Quiet t host h (arg xs 1)) λ sb w.
        Quiet-bind OneOrTwo IsHalf Any _ _ (get_size-Quiet t sb) λ size _.
          Quiet-bind OneOrTwo IsWord Any _ _ (call-Quiet host _ h) λ rv _.
            bind-Uses 0 0 0 AtMostOne (Exactly 1) OneOrTwo Any Any _ _ refl
              (tested_read (is_negative rv) sb)
              (λ _ _.
                Quiet-bind (Exactly 1) Any Any _ _ (set_length-Quiet t sb rv) λ _ _. give-Uses sb w)
              one_more
    where
      one_more : (i j : ℕ) → AtMostOne i → Exactly 1 j → OneOrTwo (i + j)
      one_more i j (inl e) e' = inl (omega (arith, e, e'))
      one_more i j (inr e) e' = inr (omega (arith, e, e'))

  pub io_write-Uses : Uses 2 (Exactly 1) Any (Io.io_write t host)
  unfolding Io.io_write
  io_write-Uses = with_args 2 (Exactly 1) _ λ xs _.
      Quiet-bind (Exactly 1) IsHalf Any _ _ (get_length-Quiet t (arg xs 1))
        λ length _. answer t host h _

  pub io_close-Uses : Uses 1 (Exactly 0) Any (Io.io_close t host)
  unfolding Io.io_close
  io_close-Uses = with_args 1 (Exactly 0) _ λ xs _. drop_answer t host h _

  pub io_ioctl-Uses : Uses 3 (Exactly 1) Any (Io.io_ioctl t host)
  unfolding Io.io_ioctl
  io_ioctl-Uses = with_args 3 (Exactly 1) _ λ xs _. answer t host h _

  pub exit-Uses : Uses 1 (Exactly 0) Any (Io.exit t host)
  unfolding Io.exit
  exit-Uses = with_args 1 (Exactly 0) _ λ xs _. drop_answer t host h _

  pub time-Uses : Uses 0 (Exactly 1) Any (Io.time t host)
  unfolding Io.time
  time-Uses = answer t host h _
