-- ===== src/Native/Table.antt =====
-- The procedures that src/vm_thunks defines by `VM_THUNK`, as NCALL reaches them. The two of
-- vmt_rtl.c that print are not among them.
use mette.Base.{ℕ, Bool, Option, none, some, Result, ok, fault, bad_access, ◌>>=◌}
use mette.Vm.Memory.{Target}
use mette.Vm.Context.{Context}
use mette.Native.Act.{Act, Host}
use mette.Native.Io
use mette.Native.Rtl
use mette.Native.Select
use mette.Native.Sockets

pub data Proc : Type 0 where
  io_open io_read io_write io_close io_ioctl sys_exit sys_time : Proc
  rtl_alloc rtl_realloc rtl_free rtl_memset rtl_memcpy : Proc
  rtl_strbuf_alloc rtl_strbuf_free rtl_strbuf_get_length rtl_strbuf_get_size : Proc
  rtl_strbuf_get_buffer rtl_strbuf_set_length rtl_strbuf_resize : Proc
  fdset_create fdset_set fdset_clear fdset_check io_select : Proc
  rtl_nswapl rtl_nswaps sockaddr_create sockaddr_get_ip sockaddr_get_port : Proc
  socket_create socket_set_blocking socket_bind socket_listen socket_accept socket_connect : Proc
  socket_send socket_sendto socket_recv socket_recvfrom socket_shutdown : Proc

module _ (t : Target) (host : Host) (fortified : Bool) where
  unfoldable pub procedure : Proc → Act (Unit {0})
  procedure io_open = Io.io_open t host
  procedure io_read = Io.io_read t host
  procedure io_write = Io.io_write t host
  procedure io_close = Io.io_close t host
  procedure io_ioctl = Io.io_ioctl t host
  procedure sys_exit = Io.exit t host
  procedure sys_time = Io.time t host
  procedure rtl_alloc = Rtl.thunk_alloc t host
  procedure rtl_realloc = Rtl.thunk_realloc t host
  procedure rtl_free = Rtl.thunk_free t host
  procedure rtl_memset = Rtl.thunk_memset t host
  procedure rtl_memcpy = Rtl.thunk_memcpy t host
  procedure rtl_strbuf_alloc = Rtl.thunk_strbuf_alloc t host
  procedure rtl_strbuf_free = Rtl.thunk_strbuf_free t host
  procedure rtl_strbuf_get_length = Rtl.thunk_strbuf_get_length t host
  procedure rtl_strbuf_get_size = Rtl.thunk_strbuf_get_size t host
  procedure rtl_strbuf_get_buffer = Rtl.thunk_strbuf_get_buffer t host
  procedure rtl_strbuf_set_length = Rtl.thunk_strbuf_set_length t host
  procedure rtl_strbuf_resize = Rtl.thunk_strbuf_resize t host
  procedure fdset_create = Select.fdset_create t host fortified
  procedure fdset_set = Select.fdset_set t host fortified
  procedure fdset_clear = Select.fdset_clear t host fortified
  procedure fdset_check = Select.fdset_check t host fortified
  procedure io_select = Select.io_select t host fortified
  procedure rtl_nswapl = Sockets.nswapl t host
  procedure rtl_nswaps = Sockets.nswaps t host
  procedure sockaddr_create = Sockets.sockaddr_create t host
  procedure sockaddr_get_ip = Sockets.sockaddr_get_ip t host
  procedure sockaddr_get_port = Sockets.sockaddr_get_port t host
  procedure socket_create = Sockets.socket_create t host
  procedure socket_set_blocking = Sockets.socket_set_blocking t host
  procedure socket_bind = Sockets.socket_bind t host
  procedure socket_listen = Sockets.socket_listen t host
  procedure socket_accept = Sockets.socket_accept t host
  procedure socket_connect = Sockets.socket_connect t host
  procedure socket_send = Sockets.socket_send t host
  procedure socket_sendto = Sockets.socket_sendto t host
  procedure socket_recv = Sockets.socket_recv t host
  procedure socket_recvfrom = Sockets.socket_recvfrom t host
  procedure socket_shutdown = Sockets.socket_shutdown t host

  -- A call of code at an address, which is a procedure's or not code.
  unfoldable pub call_native : (ℕ → Option Proc) → ℕ → Context → Result Context
  unfolding procedure
  call_native linked addr ctx = elim (linked addr) [
    | none ↦ fault bad_access
    | some p ↦ procedure p ctx >>= λ r. ok r.1
  ]
