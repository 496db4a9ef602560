-- ===== src/Tcp/Handle/States.antt =====
-- The states that a packet takes a session through.
use tun2http.Prelude.{
  ℕ, ◌+◌, ◌*◌, ◌^◌, ◌≡◌, Bool, true, false, List, ◌∷◌, length, u32, arith, if◌then◌else◌, ◌==◌, not,
  ◌||◌, ◌&&◌,
}
use tun2http.Os.{Os, Call}
use tun2http.Session.{TcpSession, TcpNode, TcpState, in_state, in_connect, ConnectState}
use tun2http.Tcp.Queue.{queue_tcp}
use tun2http.Tcp.Write.{write_rst}
use tun2http.Tcp.Write.Reset.{write_rst_lem, write_ack_cases}
use tun2http.Util.{c_string}
use tun2http.Tls.{server_name}
use tun2http.Tcp.Socket.{set_tcp}
use tun2http.Tcp.Header.{TcpPacket}
use tun2http.Tcp.Open.{remote_port}
use tun2http.Tcp.Check.{is_closed}
use tun2http.Tcp.Handle.{
  send_connect, tcp_fin, tcp_current, tcp_other_ack, tcp_control, tcp_packet_in, tcp_proxy,
  handle_tcp_known, connect_request,
}

-- Whether a packet may take a session from one state to the other: it stays, closes for good,
-- is confirmed open, gets the remote FIN, or ends with it.
abbrev pub packet_moves : TcpState → TcpState → Bool
packet_moves a b =
    in_state a b
    || (in_state b TcpState.closing && not (in_state a TcpState.close)
        || (in_state a TcpState.syn_recv && in_state b TcpState.established
            || (in_state a TcpState.established && in_state b TcpState.close_wait
                || in_state a TcpState.fin_wait1 && in_state b TcpState.close)))

-- The packet sends a CONNECT to the proxy.
abbrev needs_connect : TcpPacket → TcpNode → Bool
needs_connect p s = remote_port p == 443 && in_connect s.connect_sent ConnectState.connect_not_sent

packet_moves_refl : (a : TcpState) → packet_moves a a ≡ true
packet_moves_refl a = ground arith

queue_tcp_state :
    (p : TcpPacket) (cur : TcpSession) → (queue_tcp p.seq p.psh p.payload cur).state ≡ cur.state
unfolding queue_tcp
queue_tcp_state p cur = ground arith

module _ (os : Os) where
  write_rst_moves :
      (cur : TcpSession) (log : List Call)
      → packet_moves cur.state (write_rst os cur log).0.state ≡ true
  write_rst_moves cur log = ground (arith, write_rst_lem os cur log)

  tcp_current_moves :
      (p : TcpPacket) (cur : TcpSession) (log : List Call)
      → is_closed cur.state ≡ false
      → packet_moves cur.state (tcp_current os p cur log).0.state ≡ true
  unfolding tcp_current tcp_fin
  tcp_current_moves p cur log h =
      ground (arith, write_ack_cases os (record cur { remote_seq = u32 (cur.remote_seq + 1) }) log)

  tcp_other_ack_moves :
      (p : TcpPacket) (s : TcpNode) (log : List Call)
      → packet_moves s.state (tcp_other_ack os p s log).0.state ≡ true
  unfolding tcp_other_ack
  tcp_other_ack_moves p s log = ground (arith, write_rst_moves s.tcp log, packet_moves_refl s.state)

  tcp_control_moves :
      (p : TcpPacket) (s : TcpNode) (log : List Call)
      → is_closed s.state ≡ false
      → packet_moves s.state (tcp_control os p s log).0.state ≡ true
  unfolding tcp_control
  tcp_control_moves p s log h =
      ground (arith, tcp_current_moves p s.tcp log h, tcp_other_ack_moves p s log)

  tcp_packet_in_moves :
      (p : TcpPacket) (s : TcpNode) (log : List Call)
      → is_closed s.state ≡ false
      → packet_moves s.state (tcp_packet_in os p s log).0.state ≡ true
  unfolding tcp_packet_in
  tcp_packet_in_moves p s log h =
      let s' : TcpNode =
        set_tcp s (record (s.tcp) {
          time = os.time log;
          send_window = u32 (p.window * 2 ^ s.send_scale);
        }) in
      let queued : TcpNode = set_tcp s' (queue_tcp p.seq p.psh p.payload s'.tcp) in
      let e : queued.state ≡ s.state = queue_tcp_state p s'.tcp in
      ground (
        arith,
        tcp_control_moves p s' (Call.time ∷ log) h,
        write_rst_moves s'.tcp (Call.time ∷ log),
        tcp_control_moves p queued (Call.time ∷ log),
      )

  -- CONNECT leaves a session that waits for the proxy, or closes it.
  send_connect_moves :
      (s : TcpNode) (name : List ℕ) (log : List Call)
      → in_connect s.connect_sent ConnectState.connect_not_sent ≡ true
      → (packet_moves s.state (send_connect os s name log).0.state
            || in_state (send_connect os s name log).0.state TcpState.listen
          ≡ true)
        × (in_connect (send_connect os s name log).0.connect_sent ConnectState.connect_established
            ≡ false)
  unfolding send_connect
  send_connect_moves s name log h = ground (
    arith,
    packet_moves_refl s.state,
    write_rst_lem os s.tcp (Call.send s.socket (connect_request s.hostname) false ∷ log),
  )

  module _ (inet_ntoa : List ℕ → List ℕ) where
    tcp_proxy_state :
        (p : TcpPacket) (s : TcpNode) (log : List Call)
        → in_connect s.connect_sent ConnectState.connect_not_sent ≡ false
        → (tcp_proxy os inet_ntoa p s log).0.state ≡ s.state
    unfolding tcp_proxy send_connect
    tcp_proxy_state p s log h = ground arith

    -- A packet that does not send the CONNECT moves its session only as the TCP state machine
    -- allows: it stays, from SYN_RECV it is established, from ESTABLISHED the FIN takes it to
    -- CLOSE_WAIT, from FIN_WAIT1 to CLOSE, and any session but a CLOSE one may end in CLOSING. In
    -- particular a session that is CLOSE stays CLOSE.
    pub handle_tcp_known_moves :
        (p : TcpPacket) (s : TcpNode) (log : List Call)
        → needs_connect p s ≡ false
        → packet_moves s.state (handle_tcp_known os inet_ntoa p s log).0.state ≡ true
    unfolding handle_tcp_known
    handle_tcp_known_moves p s log n =
        let proxied : TcpNode × List Call =
          if remote_port p == 443 then tcp_proxy os inet_ntoa p s log else (s, log) in
        let e : proxied.0.state ≡ s.state = ground (arith, tcp_proxy_state p s log) in
        ground (
          arith,
          packet_moves_refl s.state,
          queue_tcp_state p proxied.0.tcp,
          write_rst_moves proxied.0.tcp proxied.1,
          tcp_packet_in_moves p proxied.0 proxied.1,
        )

    -- A packet that sends the CONNECT, or tries to, leaves the session where it was, takes it back
    -- to LISTEN, or resets it.
    pub handle_tcp_known_connects :
        (p : TcpPacket) (s : TcpNode) (log : List Call)
        → needs_connect p s ≡ true
        → packet_moves s.state (handle_tcp_known os inet_ntoa p s log).0.state
            || in_state (handle_tcp_known os inet_ntoa p s log).0.state TcpState.listen
          ≡ true
    unfolding handle_tcp_known tcp_proxy
    handle_tcp_known_connects p s log n =
        let name : List ℕ = server_name p.payload in
        let found : List ℕ = if length name == 0 then c_string (inet_ntoa s.daddr) else name in
        let host : List ℕ = if length found == 0 then s.hostname else found in
        let proxied : TcpNode × List Call =
          send_connect os (set_tcp s (record (s.tcp) { hostname = host })) found log in
        ground (
          arith,
          send_connect_moves (set_tcp s (record (s.tcp) { hostname = host })) found log,
          queue_tcp_state p proxied.0.tcp,
        )
