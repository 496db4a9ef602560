-- ===== src/Tcp/Machine.antt =====
-- android_app/app/src/main/cpp/tcp.c: the life of one TCP session, as `handle_events` of session.c
-- and `handle_tcp` drive it. Every step is a whole handler, for any packet, any report of the socket
-- and any answers of the environment.
pub mod Moves
pub mod Reach
use tun2http.Prelude.{ℕ, ◌≡◌, Bool, true, false, ◌||◌, ◌&&◌, not, Option, some, List, [], ◌∷◌, ◌==◌}
use tun2http.Os.{Os, Call, Events}
use tun2http.Session.{TcpNode, TcpState, ConnectState, in_state, in_connect}
use tun2http.Tcp.Check.{check_tcp_session, monitor_tcp_session}
use tun2http.Tcp.Socket.{check_tcp_socket}
use tun2http.Tcp.Header.{TcpPacket, FitsPacket}
use tun2http.Tcp.Open.{Opened, opened, open_tcp}
use tun2http.Tcp.Handle.{handle_tcp_known}

module _ (os : Os) (patch : List ℕ → Option (List ℕ)) (inet_ntoa : List ℕ → List ℕ) where
  -- One handler's run on a session, from a log of calls.
  pub data Step (s : TcpNode) (log : List Call) : TcpNode → Type 0 where
    packet : (p : TcpPacket) → FitsPacket p → Step s log (handle_tcp_known os inet_ntoa p s log).0
    socket : (ev : Events) → Step s log (check_tcp_socket os patch s ev log).0
    monitor : Step s log (monitor_tcp_session os s log).1
    check :
        (sessions maxsessions : ℕ) → Step s log (check_tcp_session os s sessions maxsessions log).1

  -- What a session can become from the SYN that opens it. Between two steps the log may be any,
  -- since other sessions call too.
  pub data Reachable : TcpNode → Type 0 where
    fresh :
        (p : TcpPacket) (s : TcpNode) (log log' : List Call)
        → FitsPacket p
        → open_tcp os p log ≡ opened s log'
        → Reachable s
    next : (s s' : TcpNode) (log : List Call) → Reachable s → Step s log s' → Reachable s'
