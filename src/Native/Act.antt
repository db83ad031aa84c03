-- ===== src/Native/Act.antt =====
-- What a native procedure may do, by the macros of src/vm/vm_thunks.h: take its arguments from
-- the data stack, put a result there, access memory, and call the kernel and the allocator.
use mette.Base.{ℕ, List, Result, ok, panic, fault, get_or, Bool, leb, ◌^◌}
use mette.Vm.Memory.{Memory}
use mette.Vm.Stack
use mette.Vm.Context.{Context}

-- A call that leaves the machine, with its arguments: the wrappers of src/sysdep/syscalls.h and
-- the allocator of src/rtl/rtl_memory.h. A pointer into memory is its address. A pointer to a
-- variable of the calling function is the value of that variable, and `sys_open` has the bytes
-- that the static buffer of the path holds.
pub data Call : Type 0 where
  sys_exit : (code : ℕ) → Call
  sys_time : Call
  sys_open : (path : List ℕ) (flags mode : ℕ) → Call
  sys_read sys_write : (fd buf count : ℕ) → Call
  sys_close : (fd : ℕ) → Call
  sys_ioctl sys_fcntl : (fd cmd arg : ℕ) → Call
  sys_newselect : (n rfds wfds efds tv_sec tv_usec : ℕ) → Call
  sys_socket : (domain type protocol : ℕ) → Call
  sys_bind sys_connect sys_accept : (sockfd addr addrlen : ℕ) → Call
  sys_listen : (sockfd backlog : ℕ) → Call
  sys_send : (sockfd buf count flags : ℕ) → Call
  sys_sendto sys_recvfrom : (sockfd buf count flags addr addrlen : ℕ) → Call
  sys_shutdown : (sockfd how : ℕ) → Call
  rtl_alloc : (count : ℕ) → Call
  rtl_realloc : (ptr count : ℕ) → Call
  rtl_free : (ptr : ℕ) → Call

-- The surroundings answer a call with a word, and with the memory after it.
abbrev pub Host : Type 0
Host = Call → Memory → Result (ℕ × Memory)

abbrev pub Act : Type 0 → Type 0
Act A = Context → Result (A × Context)

abbrev pub pure : {A : Type 0} → A → Act A
pure a ctx = ok (a, ctx)

infixl 5 ◌>>=◌ ◌>>◌
abbrev pub ◌>>=◌ : {A B : Type 0} → Act A → (A → Act B) → Act B
◌>>=◌ m next ctx = elim (m ctx) [ ok r ↦ next r.0 r.1 | panic p ↦ panic p | fault e ↦ fault e ]

abbrev pub ◌>>◌ : {A B : Type 0} → Act A → Act B → Act B
m >> n = m >>= λ _. n

-- `VM_THUNK_ARGS_START` to `VM_THUNK_ARGS_END`, for `n` arguments.
unfoldable pub args : ℕ → Act (List ℕ)
args n ctx = elim (Stack.pop3 ctx.dstack n) [
  | ok p ↦ ok (p.0, record ctx { dstack = p.1 })
  | panic p ↦ panic p
  | fault e ↦ fault e
]

-- The member at a place of the structure of arguments, all of which `args` fills.
abbrev pub arg : List ℕ → ℕ → ℕ
arg xs i = get_or xs i 0

-- `x < 0` of an `int`.
abbrev pub is_negative : ℕ → Bool
is_negative x = leb (2 ^ 31) x

-- `VM_THUNK_RETURN`, which is a push and does not leave the procedure.
unfoldable pub give : ℕ → Act (Unit {0})
give what ctx = elim (Stack.push ctx.dstack what) [
  | ok s ↦ ok (tt, record ctx { dstack = s })
  | panic p ↦ panic p
  | fault e ↦ fault e
]

unfoldable pub call : Host → Call → Act ℕ
call host c ctx = elim (host c ctx.memory) [
  | ok r ↦ ok (r.0, record ctx { memory = r.1 })
  | panic p ↦ panic p
  | fault e ↦ fault e
]

-- A load and a store.
unfoldable pub load : {A : Type 0} → (Memory → Result A) → Act A
load get ctx = elim (get ctx.memory) [ ok a ↦ ok (a, ctx) | panic p ↦ panic p | fault e ↦ fault e ]

unfoldable pub store : (Memory → Result Memory) → Act (Unit {0})
store put ctx = elim (put ctx.memory) [
  | ok m ↦ ok (tt, record ctx { memory = m })
  | panic p ↦ panic p
  | fault e ↦ fault e
]
