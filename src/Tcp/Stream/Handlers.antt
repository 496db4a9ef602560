-- ===== src/Tcp/Stream/Handlers.antt =====
-- The stream through the handlers: `handle_tcp` at a session and `check_tcp_socket`, in any order.
use tun2http.Prelude.{
  ℕ, ◌+◌, ◌≤◌, ◌<◌, ◌^◌, ◌≡◌, ap, true, false, Option, List, [], ◌∷◌, ◌++◌, length, take, drop,
  arith, Bool-cases, inl, inr, ◌∙◌, ◌⊎◌,
}
use tun2http.Os.{Os, Call, Events}
use tun2http.Session.{TcpSession, TcpNode, TcpState, in_state}
use tun2http.Tcp.Window.{get_receive_buffer}
use tun2http.Tcp.Header.{TcpPacket}
use tun2http.Tcp.Socket.{
  acknowledge, tcp_socket_error, tcp_socket_open, forward_data, check_tcp_socket,
}
use tun2http.Tcp.Handle.{matches_tcp, handle_tcp_known}
use tun2http.Tcp.Handle.Keys.{Key, key-handle_tcp_known}
use tun2http.Loop.Keys.{key-check_tcp_socket}
use tun2http.Tcp.Stream.{accepted, IsTaking, place, Delivers}
use tun2http.Tcp.Stream.Flows.{flows, flows-acknowledge, flows-forward_data, flows-check_tcp_socket}
use tun2http.Tcp.Stream.Quiet.{feed, feed-acknowledge, feed-tcp_socket_read, feed-tcp_socket_error}
use tun2http.Tcp.Stream.Packet.{feed-handle_tcp_known, flows-handle_tcp_known}
use tun2http.Tcp.Stream.Forward.{send_forward-Delivers}
use tun2http.Tcp.Stream.Filing.{IsPlain, Delivers-first, Delivers-queue_tcp}

module _ (os : Os) (inet_ntoa : List ℕ → List ℕ) (patch : List ℕ → Option (List ℕ))
    (socket : Option ℕ) (stream : List ℕ) (base : ℕ) where
  -- What a session and the log become while its packets and its socket's events are handled.
  pub data Relays (first : TcpNode) (start_log : List Call) : TcpNode → List Call → Type 0 where
    opened : Relays first start_log first start_log
    -- A packet of the session, without FIN, with any part of the stream and with any flags otherwise.
    packet :
        (s : TcpNode) (log : List Call) (p : TcpPacket)
        → Relays first start_log s log
        → matches_tcp p s.tcp ≡ true
        → p.fin ≡ false
        → p.seq < 2 ^ 32
        → place base p.seq + length p.payload ≤ length stream
        → p.payload ≡ take (length p.payload) (drop (place base p.seq) stream)
        → Relays first start_log
            (handle_tcp_known os inet_ntoa p s log).0
            (handle_tcp_known os inet_ntoa p s log).1
    ready :
        (s : TcpNode) (log : List Call) (ev : Events)
        → Relays first start_log s log
        → s.socket ≡ socket
        → Relays first start_log
            (check_tcp_socket os patch s ev log).0
            (check_tcp_socket os patch s ev log).1
    -- What runs for other sessions.
    passes :
        (s : TcpNode) (log : List Call) (call : Call)
        → Relays first start_log s log
        → accepted os socket (call ∷ log) ≡ accepted os socket log
        → Relays first start_log s (call ∷ log)

module _ (os : Os) (socket : Option ℕ) (stream : List ℕ) (base : ℕ) where
  Delivers-feed :
      (before : List ℕ) (cur next : TcpSession) (log log' : List Call)
      → feed os socket next log' ≡ feed os socket cur log
      → Delivers os socket before stream base cur log
      → Delivers os socket before stream base next log'
  Delivers-feed before cur next log log' e d =
      let same_seq : next.remote_seq ≡ cur.remote_seq = ap (λ f. f.1) e in
      record {
        queued = rw (ap (λ f. f.0) e) d.queued;
        remote_fits = rw same_seq d.remote_fits;
        reached = rw same_seq d.reached;
        given = rw (ap (λ f. f.2) e, same_seq) d.given;
      }

matches_tcp_dest : (p : TcpPacket) (cur : TcpSession) → matches_tcp p cur ≡ true → p.dest ≡ cur.dest
unfolding matches_tcp
matches_tcp_dest p cur match = ground arith

-- Outside LISTEN there are two ways for an event.
check_tcp_socket-flowing :
    (os : Os) (patch : List ℕ → Option (List ℕ)) (s : TcpNode) (ev : Events) (log : List Call)
    → flows s.tcp ≡ true
    → (check_tcp_socket os patch s ev log ≡ tcp_socket_error os s log)
      ⊎ (check_tcp_socket os patch s ev log ≡ tcp_socket_open os patch s ev log)
unfolding check_tcp_socket
check_tcp_socket-flowing os patch s ev log h = ground arith

module _ (os : Os) (inet_ntoa : List ℕ → List ℕ) (patch : List ℕ → Option (List ℕ))
    (socket : Option ℕ) (stream : List ℕ) (base : ℕ) (taking : IsTaking os socket)
    (short : length stream < 2 ^ 32) (base_fits : base < 2 ^ 32) where
  -- A session that carries the stream, at a time.
  abbrev Goes : List ℕ → TcpNode → List Call → Type 0
  Goes before s log =
      IsPlain s.tcp × (flows s.tcp ≡ true) × Delivers os socket before stream base s.tcp log

  handle_tcp_known-Delivers :
      (before : List ℕ) (p : TcpPacket) (s : TcpNode) (log : List Call)
      → p.dest ≡ s.dest
      → p.fin ≡ false
      → flows s.tcp ≡ true
      → p.seq < 2 ^ 32
      → place base p.seq + length p.payload ≤ length stream
      → p.payload ≡ take (length p.payload) (drop (place base p.seq) stream)
      → Delivers os socket before stream base s.tcp log
      → Delivers os socket before stream base
          (handle_tcp_known os inet_ntoa p s log).0.tcp
          (handle_tcp_known os inet_ntoa p s log).1
  handle_tcp_known-Delivers before p s log here no_fin h fits within e d =
      elim (feed-handle_tcp_known os socket inet_ntoa p s log here no_fin h) [
        | inl kept ↦ Delivers-feed os socket stream base before _ _ _ _ kept d
        | inr filed ↦ Delivers-feed os socket stream base before _ _ _ _ filed (
            Delivers-queue_tcp os socket stream base short base_fits before p.seq p.psh p.payload
              s.tcp log fits within e d)
      ]

  forward_data-Delivers :
      (before : List ℕ) (s : TcpNode) (ev : Events) (log : List Call)
      → s.socket ≡ socket
      → IsPlain s.tcp
      → Delivers os socket before stream base s.tcp log
      → Delivers os socket before stream base
          (forward_data os patch s ev log).1.tcp
          (forward_data os patch s ev log).2
  unfolding forward_data
  forward_data-Delivers before s ev log here plain d = elim (Bool-cases ev.epollout) [
    | inl e ↦
        rw (e, here)
          (send_forward-Delivers os patch socket stream base taking short base_fits before s.forward
            s.tcp (get_receive_buffer os log socket) false log plain d)
    | inr e ↦ rw e d
  ]

  tcp_socket_open-Delivers :
      (before : List ℕ) (s : TcpNode) (ev : Events) (log : List Call)
      → s.socket ≡ socket
      → IsPlain s.tcp
      → flows s.tcp ≡ true
      → Delivers os socket before stream base s.tcp log
      → Delivers os socket before stream base
          (tcp_socket_open os patch s ev log).0.tcp
          (tcp_socket_open os patch s ev log).1
  unfolding tcp_socket_open
  tcp_socket_open-Delivers before s ev log here plain h d =
      let forwarded = forward_data os patch s ev log in
      let acked = acknowledge os forwarded.1 forwarded.0 forwarded.2 in
      let h1 : flows forwarded.1.tcp ≡ true = flows-forward_data os patch s ev log ∙ h in
      let h2 : flows acked.0.tcp ≡ true =
        flows-acknowledge os forwarded.1 forwarded.0 forwarded.2 h1 in
      Delivers-feed os socket stream base before _ _ _ _
        (feed-tcp_socket_read os socket acked.0 ev acked.1 (ground arith)
          ∙ feed-acknowledge os socket forwarded.1 forwarded.0 forwarded.2 (ground arith))
        (forward_data-Delivers before s ev log here plain d)

  check_tcp_socket-Delivers :
      (before : List ℕ) (s : TcpNode) (ev : Events) (log : List Call)
      → s.socket ≡ socket
      → IsPlain s.tcp
      → flows s.tcp ≡ true
      → Delivers os socket before stream base s.tcp log
      → Delivers os socket before stream base
          (check_tcp_socket os patch s ev log).0.tcp
          (check_tcp_socket os patch s ev log).1
  check_tcp_socket-Delivers before s ev log here plain h d =
      let up : in_state s.state TcpState.listen ≡ false = ground arith in
      elim (check_tcp_socket-flowing os patch s ev log h) [
        | inl e ↦ rw e (
            Delivers-feed os socket stream base before _ _ _ _
              (feed-tcp_socket_error os socket s log up) d)
        | inr e ↦ rw e (tcp_socket_open-Delivers before s ev log here plain h d)
      ]

  Relays-Goes :
      {first : TcpNode} {start_log : List Call} {s : TcpNode} {log : List Call}
      → first.forward ≡ []
      → first.remote_seq ≡ base
      → IsPlain first.tcp
      → flows first.tcp ≡ true
      → Relays os inet_ntoa patch socket stream base first start_log s log
      → Goes (accepted os socket start_log) s log
  Relays-Goes {first} {start_log} empty seq plain h opened =
      (plain, h, Delivers-first os socket stream base short base_fits first.tcp start_log empty seq)
  Relays-Goes empty seq plain h (packet s log p r match no_fin fits within e) =
      let (plain', h', d) = Relays-Goes empty seq plain h r in
      (
        rw (ap Key.dest (key-handle_tcp_known os inet_ntoa p s log)) plain',
        flows-handle_tcp_known os socket inet_ntoa p s log (matches_tcp_dest p s.tcp match) no_fin
            h',
        handle_tcp_known-Delivers _ p s log (matches_tcp_dest p s.tcp match) no_fin h' fits within e
            d,
      )
  Relays-Goes empty seq plain h (ready s log ev r here) =
      let (plain', h', d) = Relays-Goes empty seq plain h r in
      (
        rw (ap Key.dest (key-check_tcp_socket os patch s ev log)) plain',
        flows-check_tcp_socket os patch s ev log h',
        check_tcp_socket-Delivers _ s ev log here plain' h' d,
      )
  Relays-Goes empty seq plain h (passes s log call r same) =
      let (plain', h', d) = Relays-Goes empty seq plain h r in
      (
        plain',
        h',
        record {
          queued = d.queued;
          remote_fits = d.remote_fits;
          reached = d.reached;
          given = same ∙ d.given;
        },
      )

  -- `handle_tcp` at a session and `check_tcp_socket` run in any order, for packets of the session
  -- without FIN, each with some part of a stream of less than 4 GiB, and for events of its socket.
  -- The session starts outside LISTEN and CLOSE_WAIT, with an empty queue, and expects the stream's
  -- first byte; its port is not 80, and the proxy has answered if it is 443; sends on its socket do
  -- not fail. Then the socket has been given, beside what it had at the start, exactly the stream's
  -- first bytes, up to the session's `remote_seq`.
  pub Relays-accepted :
      (first s : TcpNode) (start_log log : List Call)
      → first.forward ≡ []
      → first.remote_seq ≡ base
      → IsPlain first.tcp
      → flows first.tcp ≡ true
      → Relays os inet_ntoa patch socket stream base first start_log s log
      → accepted os socket log
        ≡ accepted os socket start_log ++ take (place base s.remote_seq) stream
  Relays-accepted first s start_log log empty seq plain h r =
      let d = (Relays-Goes empty seq plain h r).2 in d.given
