-- ===== src/Native/Select.antt =====
-- src/vm_thunks/vmt_select.c: sets of descriptors, and waiting. The macros on sets are those of
-- the C library: a set is 32 words, and a descriptor is a bit of one of them.
use mette.Base.{ℕ, zero, suc, ◌-◌, ◌*◌, ◌/◌, ◌%◌, ◌^◌, Bool, true, false}
use mette.Base.{add32, u32, bit_and, bit_or, ◌==◌, if◌then◌else◌, fault, bad_shift}
use mette.Vm.Memory.{Target, load32, store32}
use mette.Native.Act.{
  Act, Host, pure, ◌>>=◌, ◌>>◌, args, arg, give, call, is_negative, load, store, rtl_alloc,
  sys_newselect,
}

-- `__fdelt_chk`, with which the program replaces that of the C library.
abbrev pub fdelt_chk : ℕ → ℕ
fdelt_chk d = d

-- The index of the word of a descriptor. The macro calls `__fdelt_chk` in a fortified build.
abbrev pub fd_elt : Bool → ℕ → ℕ
fd_elt true d = fdelt_chk d
fd_elt false d = d / 32

abbrev pub fd_word : Bool → ℕ → ℕ → ℕ
fd_word fortified fds fd = add32 fds (u32 (4 * fd_elt fortified fd))

abbrev pub fd_mask : ℕ → ℕ
fd_mask fd = 2 ^ (fd % 32)

-- A negative descriptor has no bit: the shift and the index of the macro are undefined.
abbrev pub with_bit : {A : Type 0} → ℕ → Act A → Act A
with_bit fd act ctx = if is_negative fd then fault bad_shift else act ctx

module _ (t : Target) (host : Host) (fortified : Bool) where
  -- `FD_ZERO`, for a number of words.
  unfoldable pub fd_zero : ℕ → ℕ → Act (Unit {0})
  fd_zero fds zero = pure tt
  fd_zero fds (suc words) = do store (λ m. store32 t m fds 0); fd_zero (add32 fds 4) words

  unfoldable pub fdset_create : Act (Unit {0})
  unfolding fd_zero
  fdset_create = do fds ← call host (rtl_alloc 128); fd_zero fds 32; give fds

  unfoldable pub fd_set : ℕ → ℕ → Act (Unit {0})
  fd_set fd fds = with_bit fd (do
    w ← load (λ m. load32 t m (fd_word fortified fds fd))
    store (λ m. store32 t m (fd_word fortified fds fd) (bit_or w (fd_mask fd))))

  unfoldable pub fd_clr : ℕ → ℕ → Act (Unit {0})
  fd_clr fd fds = with_bit fd (do
    w ← load (λ m. load32 t m (fd_word fortified fds fd))
    store (λ m. store32 t m (fd_word fortified fds fd) (bit_and w (2 ^ 32 - 1 - fd_mask fd))))

  unfoldable pub fd_isset : ℕ → ℕ → Act ℕ
  fd_isset fd fds = with_bit fd (do
    w ← load (λ m. load32 t m (fd_word fortified fds fd))
    pure (if bit_and w (fd_mask fd) == 0 then 0 else 1))

  unfoldable pub fdset_set : Act (Unit {0})
  unfolding fd_set
  fdset_set = do xs ← args 2; fd_set (arg xs 1) (arg xs 0)

  unfoldable pub fdset_clear : Act (Unit {0})
  unfolding fd_clr
  fdset_clear = do xs ← args 2; fd_clr (arg xs 1) (arg xs 0)

  unfoldable pub fdset_check : Act (Unit {0})
  unfolding fd_isset
  fdset_check = do xs ← args 2; set ← fd_isset (arg xs 1) (arg xs 0); give set

  -- `timeout / 1000` of an `int`, which rounds to zero; a division by a constant.
  abbrev pub seconds : ℕ → ℕ
  seconds timeout =
      if is_negative timeout then u32 (2 ^ 32 - (2 ^ 32 - timeout) / 1000) else timeout / 1000

  unfoldable pub io_select : Act (Unit {0})
  io_select = do
    xs ← args 4
    result ← call host (
        sys_newselect 1024 (arg xs 0) (arg xs 1) (arg xs 2) (seconds (arg xs 3))
          (u32 (arg xs 3 * 1000)))
    give result
