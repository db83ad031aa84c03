-- ===== src/Native/Sockets.antt =====
-- src/vm_thunks/vmt_sockets.c: addresses and sockets. `sys_errno`, which bytecode cannot read, is
-- not part of the machine.
use mette.Base.{ℕ, ◌-◌, ◌*◌, ◌/◌, ◌^◌, ltb, ◌==◌, if◌then◌else◌}
use mette.Base.{add32, u16, bit_and, bit_or}
use mette.Vm.Memory.{Target, i386, mips, load16, load32, store16, store32}
use mette.Native.Act.{Act, Host, pure, ◌>>=◌, ◌>>◌, args, arg, give, call, load, store, is_negative}
use mette.Native.Act.{
  rtl_alloc, sys_socket, sys_fcntl, sys_bind, sys_listen, sys_accept, sys_connect, sys_send,
  sys_sendto, sys_recvfrom, sys_shutdown,
}
use mette.Native.Strbuf.{get_buffer, get_length, get_size, set_length, alloc, free}

-- `rtl_htons`, also `rtl_ntohs`: on MIPS the macro that is its argument.
unfoldable pub rtl_htons : Target → ℕ → ℕ
rtl_htons i386 x = u16 (bit_or (bit_and (u16 x) 0x00FF * 2 ^ 8) (bit_and (u16 x) 0xFF00 / 2 ^ 8))
rtl_htons mips x = x

-- `rtl_htonl`, also `rtl_ntohl`.
unfoldable pub rtl_htonl : Target → ℕ → ℕ
rtl_htonl i386 x =
    bit_or
      (bit_or (bit_or (bit_and x 0x000000FF * 2 ^ 24) (bit_and x 0x0000FF00 * 2 ^ 8))
        (bit_and x 0x00FF0000 / 2 ^ 8))
      (bit_and x 0xFF000000 / 2 ^ 24)
rtl_htonl mips x = x

-- `SOCK_STREAM`, `SOCK_DGRAM` and `SOCK_RAW` of the target, by the number that bytecode has for
-- them; -1 for another.
unfoldable pub sysdep_type : Target → ℕ → ℕ
sysdep_type i386 type =
    if type == 1 then 1 else if type == 2 then 2 else if type == 3 then 3 else 2 ^ 32 - 1
sysdep_type mips type =
    if type == 1 then 2 else if type == 2 then 1 else if type == 3 then 3 else 2 ^ 32 - 1

abbrev pub o_nonblock : Target → ℕ
o_nonblock i386 = 0x800
o_nonblock mips = 0x80

module _ (t : Target) (host : Host) where
  unfoldable pub nswapl : Act (Unit {0})
  nswapl = do xs ← args 1; give (rtl_htonl t (arg xs 0))

  unfoldable pub nswaps : Act (Unit {0})
  nswaps = do xs ← args 1; give (rtl_htons t (arg xs 0))

  -- The fields `sin_family`, `sin_port` and `sin_addr` of `struct sockaddr_in`; `AF_INET` is 2.
  unfoldable pub put_sockaddr : ℕ → ℕ → ℕ → Act (Unit {0})
  put_sockaddr sa ip port = do
    store (λ m. store16 t m sa 2)
    store (λ m. store16 t m (add32 sa 2) (rtl_htons t port))
    store (λ m. store32 t m (add32 sa 4) (rtl_htonl t ip))

  unfoldable pub sockaddr_create : Act (Unit {0})
  unfolding put_sockaddr
  sockaddr_create = do
    xs ← args 2
    sa ← call host (rtl_alloc 16)
    put_sockaddr sa (arg xs 0) (arg xs 1)
    give sa

  unfoldable pub sockaddr_get_ip : Act (Unit {0})
  sockaddr_get_ip = do
    xs ← args 1
    s_addr ← load (λ m. load32 t m (add32 (arg xs 0) 4))
    give (rtl_htonl t s_addr)

  unfoldable pub sockaddr_get_port : Act (Unit {0})
  sockaddr_get_port = do
    xs ← args 1
    sin_port ← load (λ m. load16 t m (add32 (arg xs 0) 2))
    give (rtl_htons t sin_port)

  unfoldable pub socket_create : Act (Unit {0})
  socket_create = do
    xs ← args 2
    sockfd ← call host (sys_socket 2 (sysdep_type t (arg xs 0)) (arg xs 1))
    give sockfd

  -- `flags` is unsigned. `F_GETFL` is 3, and `F_SETFL` 4.
  unfoldable pub socket_set_blocking : Act (Unit {0})
  socket_set_blocking = do
    xs ← args 2
    flags ← call host (sys_fcntl (arg xs 0) 3 0)
    if ltb flags 0 then give (2 ^ 32 - 1) else pure tt
    result ← call host (
        sys_fcntl (arg xs 0) 4 (
          if arg xs 1 == 0
          then bit_or flags (o_nonblock t)
          else bit_and flags (2 ^ 32 - 1 - o_nonblock t)))
    give result

  unfoldable pub socket_bind : Act (Unit {0})
  socket_bind = do xs ← args 2; result ← call host (sys_bind (arg xs 0) (arg xs 1) 16); give result

  unfoldable pub socket_listen : Act (Unit {0})
  socket_listen = do xs ← args 2; result ← call host (sys_listen (arg xs 0) (arg xs 1)); give result

  unfoldable pub socket_accept : Act (Unit {0})
  socket_accept = do
    xs ← args 2
    result ← call host (sys_accept (arg xs 0) (arg xs 1) 16)
    give result

  unfoldable pub socket_connect : Act (Unit {0})
  socket_connect = do
    xs ← args 2
    result ← call host (sys_connect (arg xs 0) (arg xs 1) 16)
    give result

  unfoldable pub socket_send : Act (Unit {0})
  socket_send = do
    xs ← args 2
    length ← get_length t (arg xs 1)
    result ← call host (sys_send (arg xs 0) (get_buffer (arg xs 1)) length 0)
    give result

  unfoldable pub socket_sendto : Act (Unit {0})
  socket_sendto = do
    xs ← args 3
    length ← get_length t (arg xs 1)
    result ← call host (sys_sendto (arg xs 0) (get_buffer (arg xs 1)) length 0 (arg xs 2) 16)
    give result

  -- The function `socket_recvfrom`, from the call of `sys_recvfrom` on.
  unfoldable pub receive_into : ℕ → ℕ → ℕ → Act ℕ
  receive_into sb sockfd sa = do
    size ← get_size t sb
    result ← call host (sys_recvfrom sockfd (get_buffer sb) size 0 sa 16)
    if is_negative result then (do free t host sb; pure 0) else (do set_length t sb result; pure sb)

  -- The function `socket_recvfrom`. `rtl_strbuf_alloc` has written to a buffer before its address
  -- is tested.
  unfoldable pub receive : ℕ → ℕ → ℕ → Act ℕ
  unfolding receive_into
  receive sockfd max_length sa = do
    sb ← alloc t host max_length
    if sb == 0 then pure 0 else receive_into sb sockfd sa

  unfoldable pub socket_recv : Act (Unit {0})
  unfolding receive
  socket_recv = do xs ← args 2; sb ← receive (arg xs 0) (arg xs 1) 0; give sb

  unfoldable pub socket_recvfrom : Act (Unit {0})
  unfolding receive
  socket_recvfrom = do xs ← args 3; sb ← receive (arg xs 0) (arg xs 1) (arg xs 2); give sb

  unfoldable pub socket_shutdown : Act (Unit {0})
  socket_shutdown = do
    xs ← args 2
    result ← call host (sys_shutdown (arg xs 0) (arg xs 1))
    give result
