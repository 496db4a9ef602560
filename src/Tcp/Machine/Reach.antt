-- ===== src/Tcp/Machine/Reach.antt =====
-- What holds of every session at every time.
use tun2http.Prelude.{ℕ, ◌||◌, not, Bool, ◌≡◌, true, Option, List, arith}
use tun2http.Os.{Os, Call}
use tun2http.Session.{TcpNode, TcpState, in_state}
use tun2http.Tcp.Invariant.{IsSound}
use tun2http.Tcp.Check.Life.{check_tcp_session-IsSound}
use tun2http.Tcp.Check.Monitor.{monitor_tcp_session_lem, monitor_tcp_session-IsSound}
use tun2http.Tcp.Socket.Sound.{check_tcp_socket-IsSound}
use tun2http.Tcp.Handle.Sound.{handle_tcp_known-IsSound}
use tun2http.Tcp.Open.{open_tcp}
use tun2http.Tcp.Open.Start.{open_tcp-IsFresh, Opens, IsFresh}
use tun2http.Tcp.Handle.States.{handle_tcp_known_moves, handle_tcp_known_connects}
use tun2http.Tcp.Machine.Moves.{check_tcp_socket_moves, check_tcp_session_moves}
use tun2http.Tcp.Machine.{Step, packet, socket, monitor, check, Reachable, fresh, next}

-- The states that the program gives a session.
abbrev is_used : TcpState → Bool
is_used s =
    not (
      in_state s TcpState.syn_sent
      || in_state s TcpState.fin_wait2
      || in_state s TcpState.time_wait)

module _ (os : Os) (patch : List ℕ → Option (List ℕ)) (inet_ntoa : List ℕ → List ℕ) where
  -- Every step of a session's life keeps its invariant.
  Step-IsSound :
      (s : TcpNode) (log : List Call) (s' : TcpNode)
      → Step os patch inet_ntoa s log s'
      → IsSound s
      → IsSound s'
  Step-IsSound s log _ (packet p f) h = handle_tcp_known-IsSound os inet_ntoa p s log f h
  Step-IsSound s log _ (socket ev) h = check_tcp_socket-IsSound os patch s ev log h
  Step-IsSound s log _ monitor h = monitor_tcp_session-IsSound os s log h
  Step-IsSound s log _ (check sessions maxsessions) h =
      check_tcp_session-IsSound os s sessions maxsessions log h

  -- At every time of its life a session is sound: its queue is in order and within its bytes, its
  -- sequence numbers fit 32 bits, and it has no socket in a state that has closed it.
  pub Reachable-IsSound : (s : TcpNode) → Reachable os patch inet_ntoa s → IsSound s
  Reachable-IsSound _ (fresh p s log log' f e) =
      let o : Opens (IsFresh p) (open_tcp os p log) = open_tcp-IsFresh os p log f in ground arith
  Reachable-IsSound _ (next s s' log r step) = Step-IsSound s log s' step (Reachable-IsSound s r)

  Step-is_used :
      (s : TcpNode) (log : List Call) (s' : TcpNode)
      → Step os patch inet_ntoa s log s'
      → IsSound s
      → is_used s.state ≡ true
      → is_used s'.state ≡ true
  Step-is_used s log _ (packet p f) h u = ground (
    arith,
    handle_tcp_known_moves os inet_ntoa p s log,
    handle_tcp_known_connects os inet_ntoa p s log,
  )
  Step-is_used s log _ (socket ev) h u = ground (arith, check_tcp_socket_moves os patch s ev log h)
  Step-is_used s log _ monitor h u =
      ground (arith, monitor_tcp_session_lem os s log h.session.remote_fits)
  Step-is_used s log _ (check sessions maxsessions) h u =
      ground (arith, check_tcp_session_moves os s sessions maxsessions log)

  -- Of the states of TCP a session is only ever in LISTEN, SYN_RECV, ESTABLISHED, CLOSE_WAIT,
  -- LAST_ACK, FIN_WAIT1, CLOSING or CLOSE.
  Reachable-is_used : (s : TcpNode) → Reachable os patch inet_ntoa s → is_used s.state ≡ true
  Reachable-is_used _ (fresh p s log log' f e) =
      let o : Opens (IsFresh p) (open_tcp os p log) = open_tcp-IsFresh os p log f in ground arith
  Reachable-is_used _ (next s s' log r step) =
      Step-is_used s log s' step (Reachable-IsSound s r) (Reachable-is_used s r)
