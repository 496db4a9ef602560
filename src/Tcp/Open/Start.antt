-- ===== src/Tcp/Open/Start.antt =====
-- What a session starts with, and the answer to a packet of no session.
use tun2http.Prelude.{
  ℕ, ◌+◌, ◌^◌, ◌<◌, ◌≡◌, ◌≢◌, ◌⊎◌, ◌*◌, refl, Option, some, Option-cases, inl, inr, true, false,
  none, List, ◌∷◌, length, u32, arith,
}
use tun2http.Os.{Os, Call, Events}
use tun2http.Session.{TcpSession, TcpNode, TcpState}
use tun2http.Packet.{get_default_mss}
use tun2http.Tcp.Invariant.{IsSound}
use tun2http.Sockets.{open_tcp_socket}
use tun2http.Tcp.Window.{get_receive_window}
use tun2http.Tcp.Check.{head_ready}
use tun2http.Tcp.Write.Reset.{write_syn_ack_cases}
use tun2http.Tcp.Socket.{tcp_connected}
use tun2http.Tcp.Header.{TcpPacket, FitsPacket, Decoded, decoded, fault, unfinished, decode_options}
use tun2http.Tcp.Header.Options.{
  OptionsEnd, end_bytes, end_size, TcpOption, AllOther, encode_all, options_size, last_mss,
  last_scale, decode_options-encode_all,
}
use tun2http.Tcp.Open.{
  tcp_session_of, Opened, opened, refused, stuck, start_tcp, start_decoded, open_tcp,
}

-- A predicate of the session that was opened, if one was.
abbrev pub Opens : (TcpNode → Type 0) → Opened → Type 0
Opens P (opened s log) = P s
Opens P (refused log) = Unit {0}
Opens P stuck = Unit {0}

-- A new session holds the invariant, at the start of its life: it is in LISTEN, has a socket, and
-- its sequence number is the packet's.
abbrev pub IsFresh : TcpPacket → TcpNode → Type 0
IsFresh p s = IsSound s × (s.state ≡ TcpState.listen) × (s.socket ≢ none) × (s.remote_seq ≡ p.seq)

module _ (os : Os) where
  start_tcp-IsFresh :
      (p : TcpPacket) (mss ws : ℕ) (log : List Call)
      → FitsPacket p
      → Opens (IsFresh p) (start_tcp os p mss ws log)
  unfolding start_tcp tcp_session_of
  start_tcp-IsFresh p mss ws log f = ground arith

  start_decoded-IsFresh :
      (p : TcpPacket) (d : Decoded) (log : List Call)
      → FitsPacket p
      → Opens (IsFresh p) (start_decoded os p d log)
  start_decoded-IsFresh p (decoded mss ws) log f = start_tcp-IsFresh p mss ws log f
  start_decoded-IsFresh p fault log f = ground arith
  start_decoded-IsFresh p unfinished log f = ground arith

  -- A session that a packet opens holds the invariant of sessions, is in LISTEN with a socket, and
  -- starts at the packet's sequence number.
  pub open_tcp-IsFresh :
      (p : TcpPacket) (log : List Call) → FitsPacket p → Opens (IsFresh p) (open_tcp os p log)
  unfolding open_tcp
  open_tcp-IsFresh p log f = ground (
    arith,
    start_decoded-IsFresh p
        (decode_options p.optlen p.optlen p.options (get_default_mss p.version) 0) log f,
  )

  -- What a session that is opened has from the packet and its options.
  abbrev pub Takes : TcpPacket → ℕ → ℕ → TcpNode → Type 0
  Takes p mss ws s =
      (s.mss ≡ mss)
      × (s.recv_scale ≡ ws)
      × (s.send_scale ≡ ws)
      × (s.send_window ≡ u32 (p.window * 2 ^ ws))
      × (s.remote_seq ≡ p.seq)
      × (s.state ≡ TcpState.listen)
      × (s.version ≡ p.version)
      × (s.saddr ≡ p.saddr)
      × (s.source ≡ p.source)
      × (s.daddr ≡ p.daddr)
      × (s.dest ≡ p.dest)

  -- The socket for a packet's session, once the session has a time and a number.
  abbrev pub socket_for : TcpPacket → List Call → Option ℕ
  socket_for p log = (open_tcp_socket os p.version p.dest p.daddr (Call.rand ∷ Call.time ∷ log)).0

  -- What comes of a SYN: a session on the socket that was opened, or none where there is no socket.
  abbrev pub OpensWith : TcpPacket → ℕ → ℕ → List Call → Opened → Type 0
  OpensWith p mss ws log o =
      ((s : TcpNode) × (log' : List Call) × (k : ℕ) × (o ≡ opened s log')
        × (s.socket ≡ some k)
        × (socket_for p log ≡ some k)
        × Takes p mss ws s)
      ⊎ ((log' : List Call) × (o ≡ refused log') × (socket_for p log ≡ none))

  start_tcp-OpensWith :
      (p : TcpPacket) (mss ws : ℕ) (log : List Call)
      → OpensWith p mss ws log (start_tcp os p mss ws log)
  unfolding start_tcp tcp_session_of
  start_tcp-OpensWith p mss ws log =
      let made = open_tcp_socket os p.version p.dest p.daddr (Call.rand ∷ Call.time ∷ log) in
      let cur : TcpSession = tcp_session_of p mss ws (os.time log) (os.rand (Call.time ∷ log)) in
      let events : Events = record { epollin = false; epollout = true; epollerr = true } in
      elim (Option-cases made.0) [
        | inl e ↦ inr (made.1, rw (e, start_tcp) refl, e)
        | inr (k, e) ↦
            let s : TcpNode = record { tcp = cur; socket = some k; events = events } in
            let window : ℕ = get_receive_window os made.1 s in
            inl (
              record s { tcp = record cur { recv_window = window } },
              Call.epoll_add (some k) events ∷ made.1,
              k,
              rw (e, start_tcp) refl,
              refl,
              e,
              (refl, refl, refl, refl, refl, refl, refl, refl, refl, refl, refl),
            )
      ]

  open_tcp-start :
      (p : TcpPacket) (os' : List TcpOption) (e : OptionsEnd) (log : List Call)
      → p.syn ≡ true
      → AllOther os'
      → p.optlen ≡ options_size os' + end_size e
      → p.options ≡ encode_all os' (end_bytes e)
      → open_tcp os p log
        ≡ start_tcp os p (last_mss os' (get_default_mss p.version)) (last_scale os' 0) log
  unfolding open_tcp
  open_tcp-start p os' e log syn other size bytes =
      ground (arith, decode_options-encode_all os' e p.optlen (get_default_mss p.version) 0 other)

  -- A SYN whose options are laid out as the protocol says, up to the end of the header or of the
  -- list of options, opens a session in LISTEN on the socket that is made for it: with the last
  -- segment size and the last window scale among the options, or else the defaults, the scale in both
  -- directions, the packet's window scaled by it, and the packet's sequence number, addresses and
  -- ports. Only where no socket can be made there is no session.
  pub open_tcp-encode_all :
      (p : TcpPacket) (os' : List TcpOption) (e : OptionsEnd) (log : List Call)
      → p.syn ≡ true
      → AllOther os'
      → p.optlen ≡ options_size os' + end_size e
      → p.options ≡ encode_all os' (end_bytes e)
      → OpensWith p
          (last_mss os' (get_default_mss p.version))
          (last_scale os' 0)
          log
          (open_tcp os p log)
  open_tcp-encode_all p os' e log syn other size bytes =
      rw (open_tcp-start p os' e log syn other size bytes) (start_tcp-OpensWith p _ _ log)

  -- The first data of a SYN with data is never sent: it is queued under the SYN's own number, and
  -- once the socket is connected the session expects the number after it, whatever the room in the
  -- socket's buffer.
  pub start_tcp_stalls :
      (p : TcpPacket) (s : TcpNode) (mss ws size : ℕ) (log log' log'' : List Call)
      → p.seq < 2 ^ 32
      → 0 < length p.payload
      → start_tcp os p mss ws log ≡ opened s log'
      → head_ready (tcp_connected os s log'').0.forward (tcp_connected os s log'').0.remote_seq size
        ≡ false
  unfolding start_tcp tcp_session_of tcp_connected
  start_tcp_stalls p s mss ws size log log' log'' fits payload e =
      ground (
        arith,
        write_syn_ack_cases os (record (s.tcp) { remote_seq = u32 (s.remote_seq + 1) }) log'',
      )
