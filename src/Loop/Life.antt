-- ===== src/Loop/Life.antt =====
-- android_app/app/src/main/cpp/session.c: the life of the list of sessions, as `handle_events` drives
-- it. Every step is what the loop does with one event, or one of its passes over the list, for any
-- packet, any report of a socket and any answers of the environment.
pub mod Tamed
pub mod Served
pub mod Shape
use tun2http.Prelude.{ℕ, ◌≡◌, Bool, true, false, some, List, [], ◌∷◌, ◌++◌, Option}
use tun2http.Os.{Os, Call, Events}
use tun2http.Session.{TcpNode, UdpNode, IcmpNode, NgSession, Handled, handled}
use tun2http.Tcp.Socket.{check_tcp_socket}
use tun2http.Udp.Check.{check_udp_socket}
use tun2http.Icmp.Socket.{check_icmp_socket}
use tun2http.Ip.Handle.{Settings, check_tun}
use tun2http.Loop.{sweep, monitor_all, check_allowed}

module _ (os : Os) (patch : List ℕ → Option (List ℕ)) (inet_ntoa : List ℕ → List ℕ) (fuel : ℕ)
    (beyond : ℕ → ℕ) (args : Settings) where
  -- One step on the list, from a log of calls. `junk` is a fresh buffer, `count` the sessions that
  -- were counted when the round began. A UDP socket is served only where no error is reported.
  pub data LoopStep (sessions : List NgSession) (log : List Call) : List NgSession → Type 0 where
    tun :
        (junk : List ℕ) (ev : Events) (count : ℕ) (after : List NgSession) (log' : List Call)
        → (check_tun os inet_ntoa fuel beyond args junk ev count sessions log).1
          ≡ handled after log'
        → LoopStep sessions log after
    icmp_socket :
        (ev : Events) (before : List NgSession) (s : IcmpNode) (rest : List NgSession)
        → sessions ≡ before ++ (NgSession.icmp_session s ∷ rest)
        → LoopStep sessions log
            (before ++ (NgSession.icmp_session (check_icmp_socket os s ev log).0 ∷ rest))
    udp_socket :
        (ev : Events) (before : List NgSession) (s next : UdpNode) (rest : List NgSession)
        (log' : List Call)
        → sessions ≡ before ++ (NgSession.udp_session s ∷ rest)
        → ev.epollerr ≡ false
        → ev.epollin ≡ true
        → check_udp_socket os fuel beyond s ev log ≡ some (next, log')
        → LoopStep sessions log (before ++ (NgSession.udp_session next ∷ rest))
    tcp_socket :
        (ev : Events) (before : List NgSession) (s : TcpNode) (rest : List NgSession)
        → sessions ≡ before ++ (NgSession.tcp_session s ∷ rest)
        → LoopStep sessions log
            (before ++ (NgSession.tcp_session (check_tcp_socket os patch s ev log).0 ∷ rest))
    monitor : LoopStep sessions log (monitor_all os sessions log).1
    check :
        (count maxsessions now timeout : ℕ)
        → LoopStep sessions log (sweep os count maxsessions now sessions timeout log).0
    restart : LoopStep sessions log (check_allowed os sessions log).0

  -- What the list can become from `first`. Between two steps the log may be any.
  pub data LoopRuns (first : List NgSession) : List NgSession → Type 0 where
    start : LoopRuns first first
    step :
        (sessions after : List NgSession) (log : List Call)
        → LoopRuns first sessions
        → LoopStep sessions log after
        → LoopRuns first after

  -- What it can become from none.
  abbrev pub LoopReachable : List NgSession → Type 0
  LoopReachable = LoopRuns []
