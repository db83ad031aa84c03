-- ===== src/Native/Balance.antt =====
-- The native procedures against their descriptions in src/vm_thunks, and against the machine.
use mette.Base.{ℕ, Option, none, some, Returns, Returns-bind, ◌>>=◌, Bool, ok, fault, bad_access}
use mette.Vm.Memory.{Target}
use mette.Vm.Context.{Context}
use mette.Vm.Step.Valid.{IsValid}
use mette.Native.Act.{Host}
use mette.Native.Uses.{Uses, Ends, Exactly, Any}
use mette.Native.Uses.Prims.{IsHost}
use mette.Native.Table.{Proc, procedure, call_native}
use mette.Native.Served.Files
use mette.Native.Served.Files.{OneOrTwo}
use mette.Native.Served.Blocks
use mette.Native.Served.Net
use mette.Native.Served.Sets

-- How many arguments the structure of a procedure has.
abbrev pub arity : Proc → ℕ
arity Proc.io_open = 3
arity Proc.io_read = 2
arity Proc.io_write = 2
arity Proc.io_close = 1
arity Proc.io_ioctl = 3
arity Proc.sys_exit = 1
arity Proc.sys_time = 0
arity Proc.rtl_alloc = 1
arity Proc.rtl_realloc = 2
arity Proc.rtl_free = 1
arity Proc.rtl_memset = 3
arity Proc.rtl_memcpy = 3
arity Proc.rtl_strbuf_alloc = 1
arity Proc.rtl_strbuf_free = 1
arity Proc.rtl_strbuf_get_length = 1
arity Proc.rtl_strbuf_get_size = 1
arity Proc.rtl_strbuf_get_buffer = 1
arity Proc.rtl_strbuf_set_length = 2
arity Proc.rtl_strbuf_resize = 2
arity Proc.fdset_create = 0
arity Proc.fdset_set = 2
arity Proc.fdset_clear = 2
arity Proc.fdset_check = 2
arity Proc.io_select = 4
arity Proc.rtl_nswapl = 1
arity Proc.rtl_nswaps = 1
arity Proc.sockaddr_create = 2
arity Proc.sockaddr_get_ip = 1
arity Proc.sockaddr_get_port = 1
arity Proc.socket_sendto = 3
arity Proc.socket_recvfrom = 3
arity _ = 2

-- How many results a procedure may put: one, none, or what a read puts.
abbrev pub Results : Proc → ℕ → Type 0
Results Proc.io_read = OneOrTwo
Results Proc.io_close = Exactly 0
Results Proc.sys_exit = Exactly 0
Results Proc.rtl_free = Exactly 0
Results Proc.rtl_memset = Exactly 0
Results Proc.rtl_memcpy = Exactly 0
Results Proc.rtl_strbuf_free = Exactly 0
Results Proc.rtl_strbuf_set_length = Exactly 0
Results Proc.fdset_set = Exactly 0
Results Proc.fdset_clear = Exactly 0
Results _ = Exactly 1

module _ (t : Target) (host : Host) (h : IsHost host) (fortified : Bool) where
  procedure-Uses : (p : Proc) → Uses (arity p) (Results p) Any (procedure t host fortified p)
  unfolding procedure
  procedure-Uses Proc.io_open = Files.io_open-Uses t host h
  procedure-Uses Proc.io_read = Files.io_read-Uses t host h
  procedure-Uses Proc.io_write = Files.io_write-Uses t host h
  procedure-Uses Proc.io_close = Files.io_close-Uses t host h
  procedure-Uses Proc.io_ioctl = Files.io_ioctl-Uses t host h
  procedure-Uses Proc.sys_exit = Files.exit-Uses t host h
  procedure-Uses Proc.sys_time = Files.time-Uses t host h
  procedure-Uses Proc.rtl_alloc = Blocks.thunk_alloc-Uses t host h
  procedure-Uses Proc.rtl_realloc = Blocks.thunk_realloc-Uses t host h
  procedure-Uses Proc.rtl_free = Blocks.thunk_free-Uses t host h
  procedure-Uses Proc.rtl_memset = Blocks.thunk_memset-Uses t host h
  procedure-Uses Proc.rtl_memcpy = Blocks.thunk_memcpy-Uses t host h
  procedure-Uses Proc.rtl_strbuf_alloc = Blocks.thunk_strbuf_alloc-Uses t host h
  procedure-Uses Proc.rtl_strbuf_free = Blocks.thunk_strbuf_free-Uses t host h
  procedure-Uses Proc.rtl_strbuf_get_length = Blocks.thunk_strbuf_get_length-Uses t host h
  procedure-Uses Proc.rtl_strbuf_get_size = Blocks.thunk_strbuf_get_size-Uses t host h
  procedure-Uses Proc.rtl_strbuf_get_buffer = Blocks.thunk_strbuf_get_buffer-Uses t host h
  procedure-Uses Proc.rtl_strbuf_set_length = Blocks.thunk_strbuf_set_length-Uses t host h
  procedure-Uses Proc.rtl_strbuf_resize = Blocks.thunk_strbuf_resize-Uses t host h
  procedure-Uses Proc.fdset_create = Sets.fdset_create-Uses t host h fortified
  procedure-Uses Proc.fdset_set = Sets.fdset_set-Uses t host h fortified
  procedure-Uses Proc.fdset_clear = Sets.fdset_clear-Uses t host h fortified
  procedure-Uses Proc.fdset_check = Sets.fdset_check-Uses t host h fortified
  procedure-Uses Proc.io_select = Sets.io_select-Uses t host h fortified
  procedure-Uses Proc.rtl_nswapl = Net.nswapl-Uses t host h
  procedure-Uses Proc.rtl_nswaps = Net.nswaps-Uses t host h
  procedure-Uses Proc.sockaddr_create = Net.sockaddr_create-Uses t host h
  procedure-Uses Proc.sockaddr_get_ip = Net.sockaddr_get_ip-Uses t host h
  procedure-Uses Proc.sockaddr_get_port = Net.sockaddr_get_port-Uses t host h
  procedure-Uses Proc.socket_create = Net.socket_create-Uses t host h
  procedure-Uses Proc.socket_set_blocking = Net.socket_set_blocking-Uses t host h
  procedure-Uses Proc.socket_bind = Net.socket_bind-Uses t host h
  procedure-Uses Proc.socket_listen = Net.socket_listen-Uses t host h
  procedure-Uses Proc.socket_accept = Net.socket_accept-Uses t host h
  procedure-Uses Proc.socket_connect = Net.socket_connect-Uses t host h
  procedure-Uses Proc.socket_send = Net.socket_send-Uses t host h
  procedure-Uses Proc.socket_sendto = Net.socket_sendto-Uses t host h
  procedure-Uses Proc.socket_recv = Net.socket_recv-Uses t host h
  procedure-Uses Proc.socket_recvfrom = Net.socket_recvfrom-Uses t host h
  procedure-Uses Proc.socket_shutdown = Net.socket_shutdown-Uses t host h

  pub procedure-Ends :
      (p : Proc) (ctx : Context)
      → IsValid ctx
      → Returns (Ends ctx (arity p) (Results p) Any) (procedure t host fortified p ctx)
  procedure-Ends p ctx v = procedure-Uses p ctx v

  -- A call by an address keeps a valid machine, whatever the address.
  pub call_native-IsValid :
      (linked : ℕ → Option Proc) (addr : ℕ) (ctx : Context)
      → IsValid ctx
      → Returns IsValid (call_native t host fortified linked addr ctx)
  unfolding call_native
  call_native-IsValid linked addr ctx v = called (linked addr)
    where
      called :
          (o : Option Proc)
          → Returns IsValid (elim o [
            | none ↦ fault bad_access
            | some p ↦ procedure t host fortified p ctx >>= λ r. ok r.1
          ])
      called none = tt
      called (some p) =
          Returns-bind (Ends ctx (arity p) (Results p) Any) IsValid _ _ (procedure-Ends p ctx v)
            λ r e. e.1.valid
