-- ===== src/Tcp/Stream/Flows.antt =====
-- Which sessions carry a stream, and that the handlers keep them so.
use tun2http.Prelude.{
  ℕ, ◌+◌, ◌^◌, ◌*◌, ◌≡◌, refl, ◌∙◌, Bool, true, false, not, ◌&&◌, ◌||◌, Option, List, [], ◌∷◌, ◌==◌,
  if◌then◌else◌, u32, sub32, swap16, length, arith, Bool-cases, inl, inr,
}
use tun2http.Os.{Os, Call, Events, Received}
use tun2http.Session.{Segment, TcpSession, TcpNode, TcpState, ConnectState, in_state, in_connect}
use tun2http.Tcp.Window.{get_send_window, get_receive_buffer, get_receive_window}
use tun2http.Tcp.Write.{write_rst}
use tun2http.Tcp.Write.Reset.{write_rst_lem, write_ack_cases, write_fin_ack_cases, write_data_cases}
use tun2http.Tcp.Check.{head_ready, is_empty, is_open}
use tun2http.Tcp.Queue.{queue_tcp}
use tun2http.Tcp.Header.{TcpPacket}
use tun2http.Tcp.Socket.{
  set_tcp, acknowledge, finish, tcp_socket_eof, tcp_socket_bytes, tcp_received, tcp_socket_read,
  tcp_socket_error, send_forward, count_sent, forward_data, tcp_socket_open, check_tcp_socket,
}
use tun2http.Tcp.Socket.Forward.{send_forward_round, sends, taken}
use tun2http.Tcp.Handle.{tcp_current, tcp_other_ack, tcp_control, tcp_packet_in}

-- The session is not waiting for its socket, no FIN was filed, and on port 443 the proxy has
-- answered.
abbrev pub flows : TcpSession → Bool
flows cur =
    not (in_state cur.state TcpState.listen)
    && (not (in_state cur.state TcpState.close_wait)
        && (in_connect cur.connect_sent ConnectState.connect_established
            || not (swap16 cur.dest == 443)))

pub flows-queue_tcp :
    (seq : ℕ) (psh : Bool) (bytes : List ℕ) (cur : TcpSession)
    → flows (queue_tcp seq psh bytes cur) ≡ flows cur
unfolding queue_tcp
flows-queue_tcp seq psh bytes cur = ground arith

module _ (os : Os) where
  pub flows-write_rst :
      (cur : TcpSession) (log : List Call)
      → flows cur ≡ true
      → flows (write_rst os cur log).0 ≡ true
  flows-write_rst cur log h = rw (write_rst_lem os cur log) (ground arith)

  pub flows-acknowledge :
      (s : TcpNode) (fwd : Bool) (log : List Call)
      → flows s.tcp ≡ true
      → flows (acknowledge os s fwd log).0.tcp ≡ true
  unfolding acknowledge
  flows-acknowledge s fwd log h =
      let cur : TcpSession = record (s.tcp) {
        recv_window = get_receive_window os log s;
        remote_seq =
            if fwd && is_empty s.forward && in_state s.state TcpState.close_wait
            then u32 (s.remote_seq + 1)
            else s.remote_seq;
      } in
      ground (arith, write_ack_cases os cur log)

  flows-tcp_socket_eof :
      (s : TcpNode) (log : List Call)
      → flows s.tcp ≡ true
      → flows (tcp_socket_eof os s log).0.tcp ≡ true
  unfolding tcp_socket_eof finish
  flows-tcp_socket_eof s log h =
      ground (arith, flows-write_rst s.tcp log h, write_fin_ack_cases os s.tcp log)

  flows-tcp_received :
      (s : TcpNode) (r : Received) (log : List Call)
      → flows s.tcp ≡ true
      → flows (tcp_received os s r log).0.tcp ≡ true
  unfolding tcp_received tcp_socket_bytes
  flows-tcp_received s (Received.failed true) log h = h
  flows-tcp_received s (Received.failed false) log h = flows-write_rst s.tcp log h
  flows-tcp_received s (Received.bytes []) log h = flows-tcp_socket_eof s log h
  flows-tcp_received s (Received.bytes (b ∷ bytes)) log h =
      let cur : TcpSession = record (s.tcp) { received = s.received + length (b ∷ bytes) } in
      ground (arith, write_data_cases os cur log (b ∷ bytes))

  flows-tcp_socket_read :
      (s : TcpNode) (ev : Events) (log : List Call)
      → flows s.tcp ≡ true
      → flows (tcp_socket_read os s ev log).0.tcp ≡ true
  unfolding tcp_socket_read
  flows-tcp_socket_read s ev log h =
      let s' : TcpNode = set_tcp s (record (s.tcp) { time = os.time log }) in
      elim (Bool-cases (is_open s.state && (ev.epollin && not (get_send_window s.tcp == 0)))) [
        | inl e ↦ rw e (flows-tcp_received s' _ _ h)
        | inr e ↦ rw e h
      ]

  flows-tcp_control :
      (p : TcpPacket) (s : TcpNode) (log : List Call)
      → p.fin ≡ false
      → flows s.tcp ≡ true
      → flows (tcp_control os p s log).0.tcp ≡ true
  unfolding tcp_control tcp_current tcp_other_ack
  flows-tcp_control p s log no_fin h = ground (arith, flows-write_rst s.tcp log h)

  pub flows-tcp_packet_in :
      (p : TcpPacket) (s : TcpNode) (log : List Call)
      → p.fin ≡ false
      → flows s.tcp ≡ true
      → flows (tcp_packet_in os p s log).0.tcp ≡ true
  unfolding tcp_packet_in
  flows-tcp_packet_in p s log no_fin h =
      let s' : TcpNode =
        set_tcp s (record (s.tcp) {
          time = os.time log;
          send_window = u32 (p.window * 2 ^ s.send_scale);
        }) in
      let queued : TcpSession = queue_tcp p.seq p.psh p.payload s'.tcp in
      ground (
        arith,
        flows-tcp_control p s' (Call.time ∷ log) no_fin h,
        flows-write_rst s'.tcp (Call.time ∷ log) h,
        flows-tcp_control p (set_tcp s' queued) (Call.time ∷ log) no_fin
            (flows-queue_tcp p.seq p.psh p.payload s'.tcp ∙ h),
      )

  flows-send_forward :
      (patch : List ℕ → Option (List ℕ)) (socket : Option ℕ) (q : List Segment) (cur : TcpSession)
      (size : ℕ) (fwd : Bool) (log : List Call)
      → flows (send_forward os patch socket q cur size fwd log).1 ≡ flows cur
  flows-send_forward patch socket [] cur size fwd log = unfold send_forward in refl
  flows-send_forward patch socket (q ∷ rest) cur size fwd log =
      let n : ℕ = taken os patch socket cur q log in
      let round = send_forward_round os patch socket q rest cur size fwd log in
      elim (Bool-cases (head_ready (q ∷ rest) cur.remote_seq size)) [
        | inr e ↦ rw (round, e) refl
        | inl e ↦ elim (Bool-cases (q.len == q.sent + n)) [
          | inl all ↦
              rw (round, e, all)
                (flows-send_forward patch socket rest (count_sent cur q n) (sub32 size n) true
                  (sends os patch socket cur q ∷ log))
          | inr part ↦ rw (round, e, part) refl
        ]
      ]

  pub flows-forward_data :
      (patch : List ℕ → Option (List ℕ)) (s : TcpNode) (ev : Events) (log : List Call)
      → flows (forward_data os patch s ev log).1.tcp ≡ flows s.tcp
  unfolding forward_data
  flows-forward_data patch s ev log = ground (
    arith,
    flows-send_forward patch s.socket s.forward s.tcp (get_receive_buffer os log s.socket) false
        log,
  )

  pub flows-check_tcp_socket :
      (patch : List ℕ → Option (List ℕ)) (s : TcpNode) (ev : Events) (log : List Call)
      → flows s.tcp ≡ true
      → flows (check_tcp_socket os patch s ev log).0.tcp ≡ true
  unfolding check_tcp_socket tcp_socket_error tcp_socket_open
  flows-check_tcp_socket patch s ev log h =
      let forwarded = forward_data os patch s ev log in
      let acked = acknowledge os forwarded.1 forwarded.0 forwarded.2 in
      ground (
        arith,
        flows-write_rst (record (s.tcp) { time = os.time log }) (Call.time ∷ log) h,
        flows-tcp_socket_read acked.0 ev acked.1 (
            flows-acknowledge forwarded.1 forwarded.0 forwarded.2
              (flows-forward_data patch s ev log ∙ h)),
      )
