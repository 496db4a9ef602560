-- ===== src/Tcp/Handle/Sound.antt =====
-- `handle_tcp` keeps what every operation on a session keeps.
use tun2http.Prelude.{ℕ, ◌+◌, ◌*◌, ◌^◌, refl, false, List, ◌∷◌, u32, arith, if◌then◌else◌, ◌==◌}
use tun2http.Os.{Os, Call}
use tun2http.Session.{TcpNode}
use tun2http.Tcp.Invariant.{IsSound}
use tun2http.Tcp.Queue.{queue_tcp}
use tun2http.Tcp.Queue.Content.{queue_tcp-IsQueue}
use tun2http.Tcp.Write.Reset.{write_ack_cases}
use tun2http.Tcp.Socket.{set_tcp}
use tun2http.Tcp.Socket.Sound.{reset-IsSound}
use tun2http.Tcp.Header.{TcpPacket, FitsPacket}
use tun2http.Tcp.Open.{remote_port}
use tun2http.Tcp.Handle.{
  send_connect, tcp_fin, tcp_current, tcp_other_ack, tcp_control, tcp_packet_in, tcp_proxy,
  handle_tcp_known, connect_request,
}

queue_tcp-IsSound :
    (p : TcpPacket) (s : TcpNode)
    → FitsPacket p
    → IsSound s
    → IsSound (set_tcp s (queue_tcp p.seq p.psh p.payload s.tcp))
unfolding queue_tcp
queue_tcp-IsSound p s f h =
    ground (
      arith,
      queue_tcp-IsQueue p.seq p.psh p.payload s.tcp f.seq_fits f.payload_fits h.session.queue,
    )

module _ (os : Os) where
  tcp_other_ack-IsSound :
      (p : TcpPacket) (s : TcpNode) (log : List Call)
      → IsSound s
      → IsSound (tcp_other_ack os p s log).0
  unfolding tcp_other_ack
  tcp_other_ack-IsSound p s log h = ground (arith, reset-IsSound os s s.tcp log h h.session refl)

  send_connect-IsSound :
      (s : TcpNode) (name : List ℕ) (log : List Call)
      → IsSound s
      → IsSound (send_connect os s name log).0
  unfolding send_connect
  send_connect-IsSound s name log h = ground (
    arith,
    reset-IsSound os s s.tcp (Call.send s.socket (connect_request s.hostname) false ∷ log) h
        h.session refl,
  )

  tcp_current-IsSound :
      (p : TcpPacket) (s : TcpNode) (log : List Call)
      → IsSound s
      → IsSound (set_tcp s (tcp_current os p s.tcp log).0)
  unfolding tcp_current tcp_fin
  tcp_current-IsSound p s log h =
      ground
        (arith, write_ack_cases os (record (s.tcp) { remote_seq = u32 (s.remote_seq + 1) }) log)

  tcp_control-IsSound :
      (p : TcpPacket) (s : TcpNode) (log : List Call)
      → IsSound s
      → IsSound (tcp_control os p s log).0
  unfolding tcp_control
  tcp_control-IsSound p s log h =
      ground (arith, tcp_current-IsSound p s log h, tcp_other_ack-IsSound p s log h)

  tcp_packet_in-IsSound :
      (p : TcpPacket) (s : TcpNode) (log : List Call)
      → FitsPacket p
      → IsSound s
      → IsSound (tcp_packet_in os p s log).0
  unfolding tcp_packet_in
  tcp_packet_in-IsSound p s log f h =
      let s' : TcpNode =
        set_tcp s (record (s.tcp) {
          time = os.time log;
          send_window = u32 (p.window * 2 ^ s.send_scale);
        }) in
      let h' : IsSound s' = ground arith in
      let queued : TcpNode = set_tcp s' (queue_tcp p.seq p.psh p.payload s'.tcp) in
      ground (
        arith,
        tcp_control-IsSound p s' (Call.time ∷ log) h',
        reset-IsSound os s' s'.tcp (Call.time ∷ log) h' h'.session refl,
        tcp_control-IsSound p queued (Call.time ∷ log) (queue_tcp-IsSound p s' f h'),
      )

module _ (os : Os) (inet_ntoa : List ℕ → List ℕ) where
  tcp_proxy-IsSound :
      (p : TcpPacket) (s : TcpNode) (log : List Call)
      → IsSound s
      → IsSound (tcp_proxy os inet_ntoa p s log).0
  unfolding tcp_proxy
  tcp_proxy-IsSound p s log h = send_connect-IsSound os _ _ log (ground arith)

  -- A packet of a session, whatever its flags and its data, leaves the session's invariant: the
  -- queue is in order and within its bytes, the sequence numbers fit, and a session in a state
  -- without a socket has none.
  pub handle_tcp_known-IsSound :
      (p : TcpPacket) (s : TcpNode) (log : List Call)
      → FitsPacket p
      → IsSound s
      → IsSound (handle_tcp_known os inet_ntoa p s log).0
  unfolding handle_tcp_known
  handle_tcp_known-IsSound p s log f h =
      let proxied : TcpNode × List Call =
        if remote_port p == 443 then tcp_proxy os inet_ntoa p s log else (s, log) in
      let h' : IsSound proxied.0 = ground (arith, tcp_proxy-IsSound p s log h) in
      ground (
        arith,
        queue_tcp-IsSound p proxied.0 f h',
        reset-IsSound os proxied.0 proxied.0.tcp proxied.1 h' h'.session refl,
        tcp_packet_in-IsSound os p proxied.0 proxied.1 f h',
      )
