-- ===== src/Tcp/Handle.antt =====
-- android_app/app/src/main/cpp/tcp.c: `handle_tcp`, which runs for each TCP packet from the tun
-- device. `inet_ntoa` is the C library's.
-- The packet is what `tcp_view` reads of it.
pub mod Sound
pub mod States
pub mod Keys
pub mod Connect
pub mod Unique
use Prim.Native.Nat.{Ordering}
use tun2http.Prelude.{
  ℕ, suc, ◌+◌, ◌-◌, ◌*◌, ◌^◌, Bool, true, false, not, ◌&&◌, ◌||◌, Option, none, some, List, [], ◌∷◌,
  ◌++◌, ltb, ◌==◌, if◌then◌else◌, u32, swap16, length,
}
use tun2http.Util.{compare_u32}
use tun2http.Os.{Os, Call, Events, Sent}
use tun2http.Session.{
  has_socket, Handled, handled, hung, Segment, TcpSession, TcpNode, NgSession, TcpState,
  ConnectState, in_state, in_connect, same_bytes,
}
use tun2http.Packet.{get_default_mss}
use tun2http.Tcp.Queue.{queue_tcp}
use tun2http.Tcp.Open.{remote_port, Opened, opened, refused, stuck, open_tcp}
use tun2http.Tcp.Window.{get_receive_window}
use tun2http.Tcp.Write.{write_rst, write_ack}
use tun2http.Tcp.Check.{is_empty, is_closed}
use tun2http.Util.{c_string}
use tun2http.Tls.{server_name}
use tun2http.Tcp.Socket.{set_tcp}
use tun2http.Tcp.Header.{TcpPacket, Decoded, decoded, decode_options}

-- The test by which a packet finds its session.
unfoldable pub matches_tcp : TcpPacket → TcpSession → Bool
matches_tcp p cur =
    cur.version == p.version
    && (cur.source == p.source && cur.dest == p.dest)
    && (same_bytes cur.saddr p.saddr && same_bytes cur.daddr p.daddr)

abbrev pub connect_request : List ℕ → List ℕ
connect_request hostname =
    (b'C' ∷ b'O' ∷ b'N' ∷ b'N' ∷ b'E' ∷ b'C' ∷ b'T' ∷ b' ' ∷ [])
    ++ (hostname
        ++ (b':' ∷ b'4' ∷ b'4' ∷ b'3' ∷ b' ' ∷ b'H' ∷ b'T' ∷ b'T' ∷ b'P' ∷ b'/' ∷ b'1' ∷ b'.' ∷ b'0'
            ∷ 13 ∷ 10 ∷ 13 ∷ 10 ∷ []))

module _ (os : Os) where
  -- CONNECT goes out once, when a `name` was found for the server.
  unfoldable pub send_connect : TcpNode → List ℕ → List Call → TcpNode × List Call
  send_connect s name log =
      let request = connect_request s.hostname in
      let log' = Call.send s.socket request false ∷ log in
      if in_connect s.connect_sent ConnectState.connect_not_sent && ltb 0 (length name)
      then elim (os.send log s.socket request false) [
        | Sent.failed retry ↦ (set_tcp s (write_rst os s.tcp log').0, (write_rst os s.tcp log').1)
        | Sent.sent n ↦ (
          set_tcp s (record (s.tcp) {
            connect_sent = ConnectState.connect_sent;
            state = TcpState.listen;
          }),
          log',
        )
      ]
      else (s, log)

  unfoldable pub tcp_fin : TcpSession → List Call → TcpSession × List Call
  tcp_fin cur log =
      let (ok, next, log') =
        write_ack os (record cur { remote_seq = u32 (cur.remote_seq + 1) }) log in
      if in_state cur.state TcpState.established
      then if is_empty cur.forward
        then (if ok then record next { state = TcpState.close_wait } else next, log')
        else (record cur { state = TcpState.close_wait }, log)
      else if in_state cur.state TcpState.fin_wait1
      then (if ok then record next { state = TcpState.close } else next, log')
      else (cur, log)

  -- An ACK for all that was sent.
  abbrev acked_state : TcpState → TcpState
  acked_state state =
      if in_state state TcpState.syn_recv
      then TcpState.established
      else if in_state state TcpState.last_ack
      then TcpState.closing
      else state

  -- The packet acknowledges all that was sent, or nothing.
  unfoldable pub tcp_current : TcpPacket → TcpSession → List Call → TcpSession × List Call
  tcp_current p cur log = if p.syn then (cur, log) else if p.fin then tcp_fin cur log else (
    if p.ack then record cur { acked = p.ack_seq; state = acked_state cur.state } else cur,
    log,
  )

  -- The packet acknowledges something else.
  unfoldable pub tcp_other_ack : TcpPacket → TcpNode → List Call → TcpNode × List Call
  tcp_other_ack p s log =
      if u32 (p.ack_seq + 1) == s.local_seq
      then (
        s,
        if in_state s.state TcpState.established then Call.keep_alive s.socket ∷ log else log,
      )
      else elim (compare_u32 p.ack_seq s.local_seq) [
        | Ordering.lt ↦ (
          elim (compare_u32 p.ack_seq s.acked) [
            | Ordering.gt ↦ set_tcp s (record (s.tcp) { acked = p.ack_seq })
            | _ ↦ s
          ],
          log,
        )
        | _ ↦ (set_tcp s (write_rst os s.tcp log).0, (write_rst os s.tcp log).1)
      ]

  -- What follows the data.
  unfoldable pub tcp_control : TcpPacket → TcpNode → List Call → TcpNode × List Call
  tcp_control p s log =
      if p.rst
      then (set_tcp s (record (s.tcp) { state = TcpState.closing }), log)
      else if not p.ack || p.ack_seq == s.local_seq
      then (set_tcp s (tcp_current p s.tcp log).0, (tcp_current p s.tcp log).1)
      else tcp_other_ack p s log

  -- A packet of a session that is open.
  unfoldable pub tcp_packet_in : TcpPacket → TcpNode → List Call → TcpNode × List Call
  tcp_packet_in p s log =
      let s' =
        set_tcp s (record (s.tcp) {
          time = os.time log;
          send_window = u32 (p.window * 2 ^ s.send_scale);
        }) in
      let log' = Call.time ∷ log in
      if length p.payload == 0
      then tcp_control p s' log'
      else if not (has_socket s.socket) || in_state s.state TcpState.close_wait
      then (set_tcp s' (write_rst os s'.tcp log').0, (write_rst os s'.tcp log').1)
      else tcp_control p (set_tcp s' (queue_tcp p.seq p.psh p.payload s'.tcp)) log'

module _ (os : Os) (inet_ntoa : List ℕ → List ℕ) where
  -- The name for CONNECT, and CONNECT itself, on port 443.
  unfoldable pub tcp_proxy : TcpPacket → TcpNode → List Call → TcpNode × List Call
  tcp_proxy p s log =
      let name = server_name p.payload in
      let found = if length name == 0 then c_string (inet_ntoa s.daddr) else name in
      let host = if length found == 0 then s.hostname else found in
      send_connect os (set_tcp s (record (s.tcp) { hostname = host })) found log

  -- A packet of a known session. Data for a proxy that has not answered yet is only queued.
  unfoldable pub handle_tcp_known : TcpPacket → TcpNode → List Call → TcpNode × List Call
  handle_tcp_known p s log =
      let proxied = if remote_port p == 443 then tcp_proxy p s log else (s, log) in
      let s' = proxied.0 in
      let log' = proxied.1 in
      if remote_port p == 443 && not (in_connect s'.connect_sent ConnectState.connect_established)
      then (set_tcp s' (queue_tcp p.seq p.psh p.payload s'.tcp), log')
      else if is_closed s'.state
      then (set_tcp s' (write_rst os s'.tcp log').0, (write_rst os s'.tcp log').1)
      else tcp_packet_in os p s' log'

abbrev pub prepend :
    NgSession → Option (List NgSession × List Call) → Option (List NgSession × List Call)
prepend s none = none
prepend s (some (rest, log)) = some (s ∷ rest, log)

-- A new session goes to the front of the list.
abbrev pub or_opened : List NgSession → Opened → Handled
or_opened sessions (opened s log) = handled (NgSession.tcp_session s ∷ sessions) log
or_opened sessions (refused log) = handled sessions log
or_opened sessions stuck = hung

abbrev pub after_search :
    Os → TcpPacket → List NgSession → List Call → Option (List NgSession × List Call) → Handled
after_search os p sessions log (some (sessions', log')) = handled sessions' log'
after_search os p sessions log none = or_opened sessions (open_tcp os p log)

module _ (os : Os) (inet_ntoa : List ℕ → List ℕ) where
  -- The search for the packet's session, and what it does there; `none` where there is no such
  -- session.
  unfoldable pub search_tcp :
      TcpPacket → List NgSession → List Call → Option (List NgSession × List Call)
  search_tcp p [] log = none
  search_tcp p (NgSession.icmp_session s ∷ rest) log =
      prepend (NgSession.icmp_session s) (search_tcp p rest log)
  search_tcp p (NgSession.udp_session s ∷ rest) log =
      prepend (NgSession.udp_session s) (search_tcp p rest log)
  search_tcp p (NgSession.tcp_session s ∷ rest) log =
      let later = prepend (NgSession.tcp_session s) (search_tcp p rest log) in
      let here = handle_tcp_known os inet_ntoa p s log in
      if matches_tcp p s.tcp then some (NgSession.tcp_session here.0 ∷ rest, here.1) else later

  -- A packet with urgent data is dropped.
  unfoldable pub handle_tcp : TcpPacket → List NgSession → List Call → Handled
  handle_tcp p sessions log =
      if p.urg
      then handled sessions log
      else after_search os p sessions log (search_tcp p sessions log)
