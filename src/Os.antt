-- ===== src/Os.antt =====
-- What the native code asks of the system it runs on: sockets, the tun device, epoll, the clock.
-- A component takes an `Os` as a parameter. Every answer may depend on all the calls made before
-- it, so a value of `Os` is any behaviour of the environment at all.
pub mod Closes
use tun2http.Prelude.{ℕ, Bool, Option, List}

-- The bits of `epoll_event.events` that the code reads or sets.
pub record Events : Type 0 where
  pub epollin : Bool
  pub epollout : Bool
  pub epollerr : Bool

pub data SocketKind : Type 0 where
  stream datagram ping : SocketKind

-- Where a socket is connected to: the bytes of an address, or the text of one, which `inet_pton` reads,
-- and the port in the notation of the network.
pub data Address : Type 0 where
  at : List ℕ → ℕ → Address
  named : List ℕ → ℕ → Address

-- A socket is `none` where the code has -1.
pub data Call : Type 0 where
  time get_ms : Call
  tun_write : List ℕ → Call
  send : Option ℕ → List ℕ → Bool → Call
  sendto : Option ℕ → List ℕ → Call
  recv : Option ℕ → ℕ → Call
  drain : Option ℕ → Call
  close : Option ℕ → Call
  epoll_mod epoll_add : Option ℕ → Events → Call
  -- A new socket of a kind for IPv4 or IPv6, and what is done with it before it is used.
  socket : SocketKind → ℕ → Call
  protect set_nonblock : ℕ → Call
  set_broadcast set_multicast : ℕ → Call
  connect : ℕ → Address → Call
  keep_alive : Option ℕ → Call
  rand tun_read : Call
  -- `is_readable`, of the tun device and of a socket.
  tun_poll : Call
  poll : Option ℕ → Call
  -- The thread: its attachment to Java, its epoll file, and what that watches.
  attach epoll_create epoll_pipe epoll_tun epoll_close detach : Call
  epoll_wait : ℕ → Call
  read_pipe : Call
  -- The calls from Java: the tun device is made blocking, the thread started, stopped over its pipe
  -- and waited for; the pipe is made and closed.
  block_tun create_thread write_pipe join_thread make_pipe close_pipe : Call

-- `failed r` is -1, with `r` for an errno of EINTR or EAGAIN.
pub data Sent : Type 0 where
  failed : Bool → Sent
  sent : ℕ → Sent

-- No bytes are the end of the stream.
pub data Received : Type 0 where
  failed : Bool → Received
  bytes : List ℕ → Received

-- An event of `epoll_wait`: of the pipe by which the thread is stopped, of the tun device, or of a
-- session's socket. The pointer to the session is how many sessions stand behind it in the list,
-- which stays the same while the events are handled: new sessions go to the front.
pub data Ready : Type 0 where
  pipe_ready : Ready
  tun_ready : Events → Ready
  session_ready : ℕ → Events → Ready

-- The answer of `epoll_wait`; `interrupted` is -1 with an errno of EINTR.
pub data Polled : Type 0 where
  interrupted : Polled
  wait_failed : Polled
  ready : List Ready → Polled

pub record Os : Type 0 where
  pub time : List Call → ℕ
  pub get_ms : List Call → ℕ
  -- The count that `write` on the tun device returns, `none` for -1.
  pub tun_write : List Call → List ℕ → Option ℕ
  pub send : List Call → Option ℕ → List ℕ → Bool → Sent
  pub sendto : List Call → Option ℕ → List ℕ → Sent
  pub recv : List Call → Option ℕ → ℕ → Received
  -- Whether `epoll_ctl` fails.
  pub epoll_mod : List Call → Option ℕ → Events → Bool
  -- SO_SNDBUF and SIOCOUTQ; `none` where the call fails.
  pub sndbuf : List Call → ℕ → Option ℕ
  pub outq : List Call → ℕ → Option ℕ
  pub socket : List Call → Option ℕ
  -- Whether the application keeps the socket out of the tunnel.
  pub protect : List Call → ℕ → Bool
  -- Whether making it non-blocking fails, and whether `connect` does, with another errno than
  -- EINPROGRESS.
  pub nonblock_fails : List Call → ℕ → Bool
  pub connect_fails : List Call → ℕ → Bool
  -- The proxy as the application gives it: the text of its address, and its port.
  pub proxy_ip : List ℕ
  pub proxy_port : ℕ
  pub rand : List Call → ℕ
  -- A packet of the tun device, at most the MTU long.
  pub tun_read : List Call → Received
  -- Whether `errno` is EINTR or EAGAIN where no call has just failed.
  pub errno_again : List Call → Bool
  pub tun_readable : List Call → Bool
  pub readable : List Call → Option ℕ → Bool
  -- Whether the call that is made now, one of those that set the thread up, fails.
  pub setup_fails : List Call → Bool
  -- The number of a new thread, `none` where it cannot be started.
  pub create_thread : List Call → Option ℕ
  pub pipe_write_fails : List Call → Bool
  -- The wait in milliseconds, and what it brings.
  pub epoll_wait : List Call → ℕ → Polled
