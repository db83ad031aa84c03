-- ===== src/Native/Served/Net.antt =====
-- The procedures of src/vm_thunks/vmt_sockets.c take their arguments and put their results.
use mette.Base.{ℕ, ◌-◌, ◌^◌, ◌≡◌, arith, ltb, ◌==◌, Bool, false}
use mette.Base.{if◌then◌else◌, add32}
use mette.Vm.Memory.{Target}
use mette.Vm.Memory.Laws.{load16-lt, load32-lt, store16-IsBytes, store32-IsBytes}
use mette.Vm.Step.Valid.{IsWord}
use mette.Native.Act.{Act, Host, pure, arg, give, is_negative}
use mette.Native.Uses.{Uses, Quiet, Exactly, Any}
use mette.Native.Uses.Prims.{IsHost, give-Uses, pure-Quiet, call-Quiet, load-Quiet, store-Quiet}
use mette.Native.Parts.{
  IsHalf, Quiet-bind, Quiet-if, get_length-Quiet, get_size-Quiet, set_length-Quiet, alloc-Quiet,
  free-Quiet,
}
use mette.Native.Served.{arg-IsWord, with_args, put_result, answer}
use mette.Native.Order.{rtl_htonl-rtl_htonl, rtl_htons-lt}
use mette.Native.Sockets
use mette.Native.Sockets.{rtl_htonl, rtl_htons, put_sockaddr, receive, receive_into}
use mette.Base.{le→ltb-false}

untaken :
    {A : Type 0} (Q : A → Type 0) (b : Bool) (m n : Act A)
    → b ≡ false
    → Quiet Q n
    → Quiet Q (if b then m else n)
untaken Q b m n e k = rw (e) k

module _ (t : Target) (host : Host) (h : IsHost host) where
  pub nswapl-Uses : Uses 1 (Exactly 1) Any (Sockets.nswapl t host)
  unfolding Sockets.nswapl
  nswapl-Uses =
      with_args 1 (Exactly 1) _
        λ xs w. give-Uses _ (rtl_htonl-rtl_htonl t (arg xs 0) (arg-IsWord xs 0 w)).0

  pub nswaps-Uses : Uses 1 (Exactly 1) Any (Sockets.nswaps t host)
  unfolding Sockets.nswaps
  nswaps-Uses =
      with_args 1 (Exactly 1) _ λ xs w. give-Uses _ (rtl_htons-lt t (arg xs 0) (arg-IsWord xs 0 w))

  put_sockaddr-Quiet : (sa ip port : ℕ) → Quiet Any (put_sockaddr t host sa ip port)
  unfolding put_sockaddr
  put_sockaddr-Quiet sa ip port =
      Quiet-bind (Exactly 0) Any Any _ _ (store-Quiet _ λ m. store16-IsBytes t m sa 2) λ _ _.
        Quiet-bind (Exactly 0) Any Any _ _
          (store-Quiet _ λ m. store16-IsBytes t m (add32 sa 2) (rtl_htons t port))
          λ _ _. store-Quiet _ λ m. store32-IsBytes t m (add32 sa 4) (rtl_htonl t ip)

  pub sockaddr_create-Uses : Uses 2 (Exactly 1) Any (Sockets.sockaddr_create t host)
  unfolding Sockets.sockaddr_create
  sockaddr_create-Uses = with_args 2 (Exactly 1) _ λ xs _.
      Quiet-bind (Exactly 1) IsWord Any _ _ (call-Quiet host _ h) λ sa w.
        Quiet-bind (Exactly 1) Any Any _ _ (put_sockaddr-Quiet sa (arg xs 0) (arg xs 1))
          λ _ _. give-Uses sa w

  pub sockaddr_get_ip-Uses : Uses 1 (Exactly 1) Any (Sockets.sockaddr_get_ip t host)
  unfolding Sockets.sockaddr_get_ip
  sockaddr_get_ip-Uses = with_args 1 (Exactly 1) _ λ xs _.
      put_result IsWord _ (rtl_htonl t) (load-Quiet _ _ λ m. load32-lt t m (add32 (arg xs 0) 4))
        λ s_addr w. (rtl_htonl-rtl_htonl t s_addr w).0

  pub sockaddr_get_port-Uses : Uses 1 (Exactly 1) Any (Sockets.sockaddr_get_port t host)
  unfolding Sockets.sockaddr_get_port
  sockaddr_get_port-Uses = with_args 1 (Exactly 1) _ λ xs _.
      put_result IsHalf _ (rtl_htons t) (load-Quiet _ _ λ m. load16-lt t m (add32 (arg xs 0) 2))
        λ sin_port w. rtl_htons-lt t sin_port (omega (arith, w))

  pub socket_create-Uses : Uses 2 (Exactly 1) Any (Sockets.socket_create t host)
  unfolding Sockets.socket_create
  socket_create-Uses = with_args 2 (Exactly 1) _ λ xs _. answer t host h _

  pub socket_set_blocking-Uses : Uses 2 (Exactly 1) Any (Sockets.socket_set_blocking t host)
  unfolding Sockets.socket_set_blocking
  socket_set_blocking-Uses = with_args 2 (Exactly 1) _ λ xs _.
      Quiet-bind (Exactly 1) IsWord Any _ _ (call-Quiet host _ h) λ flags _.
        Quiet-bind (Exactly 1) Any Any _ _
          (untaken Any (ltb flags 0) (give (2 ^ 32 - 1)) (pure tt)
            (le→ltb-false flags 0 (omega arith)) (pure-Quiet Any tt tt))
          λ _ _. answer t host h _

  pub socket_bind-Uses : Uses 2 (Exactly 1) Any (Sockets.socket_bind t host)
  unfolding Sockets.socket_bind
  socket_bind-Uses = with_args 2 (Exactly 1) _ λ xs _. answer t host h _

  pub socket_listen-Uses : Uses 2 (Exactly 1) Any (Sockets.socket_listen t host)
  unfolding Sockets.socket_listen
  socket_listen-Uses = with_args 2 (Exactly 1) _ λ xs _. answer t host h _

  pub socket_accept-Uses : Uses 2 (Exactly 1) Any (Sockets.socket_accept t host)
  unfolding Sockets.socket_accept
  socket_accept-Uses = with_args 2 (Exactly 1) _ λ xs _. answer t host h _

  pub socket_connect-Uses : Uses 2 (Exactly 1) Any (Sockets.socket_connect t host)
  unfolding Sockets.socket_connect
  socket_connect-Uses = with_args 2 (Exactly 1) _ λ xs _. answer t host h _

  pub socket_send-Uses : Uses 2 (Exactly 1) Any (Sockets.socket_send t host)
  unfolding Sockets.socket_send
  socket_send-Uses = with_args 2 (Exactly 1) _ λ xs _.
      Quiet-bind (Exactly 1) IsHalf Any _ _ (get_length-Quiet t (arg xs 1))
        λ length _. answer t host h _

  pub socket_sendto-Uses : Uses 3 (Exactly 1) Any (Sockets.socket_sendto t host)
  unfolding Sockets.socket_sendto
  socket_sendto-Uses = with_args 3 (Exactly 1) _ λ xs _.
      Quiet-bind (Exactly 1) IsHalf Any _ _ (get_length-Quiet t (arg xs 1))
        λ length _. answer t host h _

  receive_into-Quiet :
      (sb sockfd sa : ℕ) → IsWord sb → Quiet IsWord (receive_into t host sb sockfd sa)
  unfolding receive_into
  receive_into-Quiet sb sockfd sa w =
      Quiet-bind (Exactly 0) IsHalf IsWord _ _ (get_size-Quiet t sb) λ size _.
        Quiet-bind (Exactly 0) IsWord IsWord _ _ (call-Quiet host _ h) λ result _.
          Quiet-if IsWord (is_negative result) _ _
            (Quiet-bind (Exactly 0) Any IsWord _ _ (free-Quiet t host h sb)
              λ _ _. pure-Quiet IsWord 0 (omega arith))
            (Quiet-bind (Exactly 0) Any IsWord _ _ (set_length-Quiet t sb result)
              λ _ _. pure-Quiet IsWord sb w)

  receive-Quiet : (sockfd max_length sa : ℕ) → Quiet IsWord (receive t host sockfd max_length sa)
  unfolding receive
  receive-Quiet sockfd max_length sa =
      Quiet-bind (Exactly 0) IsWord IsWord _ _ (alloc-Quiet t host h max_length) λ sb w.
        Quiet-if IsWord (sb == 0) _ _ (pure-Quiet IsWord 0 (omega arith))
          (receive_into-Quiet sb sockfd sa w)

  pub socket_recv-Uses : Uses 2 (Exactly 1) Any (Sockets.socket_recv t host)
  unfolding Sockets.socket_recv
  socket_recv-Uses =
      with_args 2 (Exactly 1) _
        λ xs _. put_result IsWord _ (λ a. a) (receive-Quiet (arg xs 0) (arg xs 1) 0) λ a w. w

  pub socket_recvfrom-Uses : Uses 3 (Exactly 1) Any (Sockets.socket_recvfrom t host)
  unfolding Sockets.socket_recvfrom
  socket_recvfrom-Uses =
      with_args 3 (Exactly 1) _ λ xs _.
        put_result IsWord _ (λ a. a) (receive-Quiet (arg xs 0) (arg xs 1) (arg xs 2)) λ a w. w

  pub socket_shutdown-Uses : Uses 2 (Exactly 1) Any (Sockets.socket_shutdown t host)
  unfolding Sockets.socket_shutdown
  socket_shutdown-Uses = with_args 2 (Exactly 1) _ λ xs _. answer t host h _
