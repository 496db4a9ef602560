-- ===== src/Loop/Life/Shape.antt =====
-- The list of sessions stays in shape.
use tun2http.Prelude.{
  ℕ, ◌≡◌, subst, Bool, true, false, Option, List, [], ◌∷◌, arith, if◌then◌else◌, Bool-cases, inl,
  inr, length,
}
use tun2http.Os.{Os, Call, Events, Received}
use tun2http.Session.{TcpNode, UdpNode, UdpState, IcmpNode, NgSession, has_socket, in_udp}
use tun2http.Session.Leaves.{Leaves}
use tun2http.Tcp.Write.{write_rst}
use tun2http.Tcp.Write.Reset.{write_rst_lem}
use tun2http.Tcp.Check.{monitor_tcp_session}
use tun2http.Tcp.Socket.{check_tcp_socket}
use tun2http.Tcp.Handle.Keys.{key}
use tun2http.Udp.Check.{finishing}
use tun2http.Udp.Check.Life.{check_udp_session-IsSound}
use tun2http.Session.{TcpSession}
use tun2http.Tcp.Check.{is_closed}
use tun2http.Icmp.Socket.{check_icmp_socket}
use tun2http.Icmp.Handle.Send.{IsPinged}
use tun2http.Udp.Handle.Send.{Gives}
use tun2http.Loop.Life.Tamed.{Tame, Tamed, none_left, deletes, keeps, Tamed-InShape}
use tun2http.Ip.Handle.{Settings, check_tun, tun_received, tun_buffer}
use tun2http.Ip.Shape.{InShape, handle_ip-InShape}
use tun2http.Loop.{check_session, sweep, monitor_all, check_allowed, wait_for}
use tun2http.Loop.Keys.{key-check_tcp_session, key-monitor_tcp_session, key-check_tcp_socket}
use tun2http.Loop.Life.Served.{
  IsServed, Tame-refl, Tamed-one, check_udp_socket-IsServed, check_icmp_socket-IsPinged,
  IsPinged-Tame, key-check_udp_session, check_icmp_session_waits,
}
use tun2http.Loop.Life.{
  LoopStep, tun, icmp_socket, udp_socket, tcp_socket, monitor, check, restart, LoopReachable, start,
  step,
}

module _ (os : Os) where
  -- A check deletes a session or leaves it tame.
  check_session-Tame :
      (s : NgSession) (count maxsessions : ℕ) (log : List Call)
      → (check_session os s count maxsessions log).0 ≡ false
      → Tame s (check_session os s count maxsessions log).1
  unfolding check_session
  check_session-Tame (NgSession.tcp_session s) count maxsessions log k =
      key-check_tcp_session os s count maxsessions log
  check_session-Tame (NgSession.udp_session s) count maxsessions log k = (
    key-check_udp_session os s count maxsessions log,
    check_udp_session-IsSound os s count maxsessions log,
  )
  check_session-Tame (NgSession.icmp_session s) count maxsessions log k =
      rw (check_icmp_session_waits os s count maxsessions log k) (λ q h. h, λ h. h)

  sweep-Tamed :
      (count maxsessions now : ℕ) (xs : List NgSession) (timeout : ℕ) (log : List Call)
      → Tamed xs (sweep os count maxsessions now xs timeout log).0
  unfolding sweep
  sweep-Tamed count maxsessions now [] timeout log = none_left
  sweep-Tamed count maxsessions now (s ∷ rest) timeout log =
      let checked : Bool × NgSession × List Call = check_session os s count maxsessions log in
      elim (Bool-cases checked.0) [
        | inl e ↦ rw e (deletes s rest _ (sweep-Tamed count maxsessions now rest timeout checked.2))
        | inr e ↦ rw e (
            keeps s checked.1 rest _ (check_session-Tame s count maxsessions log e) (
              sweep-Tamed count maxsessions now rest
                (wait_for checked.1 count maxsessions now timeout) checked.2))
      ]

  monitor_all-Tamed : (xs : List NgSession) (log : List Call) → Tamed xs (monitor_all os xs log).1
  unfolding monitor_all
  monitor_all-Tamed [] log = none_left
  monitor_all-Tamed (NgSession.icmp_session s ∷ rest) log =
      keeps _ _ rest _ (Tame-refl (NgSession.icmp_session s)) (monitor_all-Tamed rest log)
  monitor_all-Tamed (NgSession.udp_session s ∷ rest) log =
      keeps _ _ rest _ (Tame-refl (NgSession.udp_session s)) (monitor_all-Tamed rest log)
  monitor_all-Tamed (NgSession.tcp_session s ∷ rest) log =
      let watched : Bool × TcpNode × List Call =
        if has_socket s.socket then monitor_tcp_session os s log else (false, s, log) in
      let same : key watched.1.tcp ≡ key s.tcp = ground (arith, key-monitor_tcp_session os s log) in
      keeps _ (NgSession.tcp_session watched.1) rest _ same (monitor_all-Tamed rest watched.2)

  check_allowed-Tamed :
      (xs : List NgSession) (log : List Call) → Tamed xs (check_allowed os xs log).0
  unfolding check_allowed
  check_allowed-Tamed [] log = none_left
  check_allowed-Tamed (NgSession.icmp_session s ∷ rest) log =
      let t : IcmpNode = record s { icmp = record (s.icmp) { stop = true } } in
      let pinged : IsPinged s t = ground arith in
      keeps _ (NgSession.icmp_session t) rest _ (IsPinged-Tame os s t pinged)
        (check_allowed-Tamed rest log)
  check_allowed-Tamed (NgSession.udp_session s ∷ rest) log =
      let t : UdpNode =
        if in_udp s.state UdpState.udp_active then record s { udp = finishing s.udp } else s in
      let served : IsServed s t = ground arith in
      let later = check_allowed-Tamed rest log in
      elim (Bool-cases (in_udp s.state UdpState.udp_blocked)) [
        | inl e ↦ rw e (deletes _ rest _ later)
        | inr e ↦
            rw e (keeps _ (NgSession.udp_session t) rest _ (served.same_key, served.sound) later)
      ]
  check_allowed-Tamed (NgSession.tcp_session s ∷ rest) log =
      let stopped : TcpSession × List Call =
        if is_closed s.state then (s.tcp, log) else write_rst os s.tcp log in
      let same : key stopped.0 ≡ key s.tcp = ground (arith, write_rst_lem os s.tcp log) in
      keeps _ (NgSession.tcp_session (record s { tcp = stopped.0 })) rest _ same
        (check_allowed-Tamed rest stopped.1)

module _ (os : Os) (patch : List ℕ → Option (List ℕ)) (inet_ntoa : List ℕ → List ℕ) (fuel : ℕ)
    (beyond : ℕ → ℕ) (args : Settings) where
  tun_received-InShape :
      (junk : List ℕ) (r : Received) (count : ℕ) (sessions : List NgSession) (log : List Call)
      → InShape sessions
      → Leaves InShape (tun_received os inet_ntoa fuel beyond args junk r count sessions log).1
  tun_received-InShape junk (Received.failed again) count sessions log h = h
  tun_received-InShape junk (Received.bytes []) count sessions log h = h
  tun_received-InShape junk (Received.bytes (b ∷ bytes)) count sessions log h =
      handle_ip-InShape os inet_ntoa fuel beyond args
        (tun_buffer os inet_ntoa fuel beyond args junk (b ∷ bytes)) (length (b ∷ bytes)) count
        sessions log h

  check_tun-InShape :
      (junk : List ℕ) (ev : Events) (count : ℕ) (sessions : List NgSession) (log : List Call)
      → InShape sessions
      → Leaves InShape (check_tun os inet_ntoa fuel beyond args junk ev count sessions log).1
  unfolding check_tun
  check_tun-InShape junk ev count sessions log h =
      let received =
        tun_received-InShape junk (os.tun_read log) count sessions (Call.tun_read ∷ log) h in
      ground arith

  LoopStep-InShape :
      (sessions : List NgSession) (log : List Call) (after : List NgSession)
      → InShape sessions
      → LoopStep os patch inet_ntoa fuel beyond args sessions log after
      → InShape after
  LoopStep-InShape sessions log after h (tun junk ev count after' log' e) =
      subst (Leaves InShape) e (check_tun-InShape junk ev count sessions log h)
  LoopStep-InShape sessions log after h (icmp_socket ev before s rest e) =
      let next : IcmpNode = (check_icmp_socket os s ev log).0 in
      Tamed-InShape _ _ (subst InShape e h) (
        Tamed-one before (NgSession.icmp_session s) (NgSession.icmp_session next) rest
          (IsPinged-Tame os s next (check_icmp_socket-IsPinged os s ev log)))
  LoopStep-InShape sessions log after h
        (udp_socket ev before s next rest log' e no_error ready answer) =
      let served : IsServed s next =
        subst (Gives (IsServed s)) answer (check_udp_socket-IsServed os fuel beyond s ev log) in
      Tamed-InShape _ _ (subst InShape e h) (
        Tamed-one before (NgSession.udp_session s) (NgSession.udp_session next) rest
          (served.same_key, served.sound))
  LoopStep-InShape sessions log after h (tcp_socket ev before s rest e) =
      Tamed-InShape _ _ (subst InShape e h) (
        Tamed-one before (NgSession.tcp_session s)
          (NgSession.tcp_session (check_tcp_socket os patch s ev log).0) rest
          (key-check_tcp_socket os patch s ev log))
  LoopStep-InShape sessions log after h monitor =
      Tamed-InShape sessions _ h (monitor_all-Tamed os sessions log)
  LoopStep-InShape sessions log after h (check count maxsessions now timeout) =
      Tamed-InShape sessions _ h (sweep-Tamed os count maxsessions now sessions timeout log)
  LoopStep-InShape sessions log after h restart =
      Tamed-InShape sessions _ h (check_allowed-Tamed os sessions log)

  -- From the empty list on, through any sequence of packets, events of sockets, passes over the list
  -- and restarts, in any order, the list of sessions is in shape: no packet of any protocol finds two
  -- sessions, no UDP session that is closed or blocked has a socket, and every ICMP session has one.
  pub LoopReachable-InShape :
      (sessions : List NgSession)
      → LoopReachable os patch inet_ntoa fuel beyond args sessions
      → InShape sessions
  LoopReachable-InShape sessions start = record {
    tcp_unique = λ q. omega arith;
    udp_unique = λ q. omega arith;
    icmp_unique = λ q. omega arith;
    udp_sound = tt;
    icmp_sockets = tt;
  }
  LoopReachable-InShape sessions (step before after log r one) =
      LoopStep-InShape before log sessions (LoopReachable-InShape before r) one
