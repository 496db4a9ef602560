-- ===== src/Tcp/Stream/Quiet.antt =====
-- What `check_tcp_socket` does besides sending data leaves the queue, `remote_seq` and what the socket
-- was given as they are.
use tun2http.Prelude.{
  ℕ, ◌+◌, ◌≡◌, refl, Bool, true, false, not, ◌&&◌, Option, List, [], ◌∷◌, ◌==◌, if◌then◌else◌, u32,
  length, arith, Bool-cases, inl, inr,
}
use tun2http.Os.{Os, Call, Events, Received}
use tun2http.Session.{Segment, TcpSession, TcpNode, TcpState, in_state}
use tun2http.Tcp.Window.{get_send_window, get_receive_window}
use tun2http.Tcp.Write.{write_tcp, write_rst, write_ack, write_data, write_fin_ack}
use tun2http.Tcp.Write.Reset.{write_ack_cases, write_fin_ack_cases, write_data_cases}
use tun2http.Tcp.Check.{is_empty, is_open}
use tun2http.Tcp.Socket.{
  set_tcp, acknowledge, finish, tcp_socket_eof, tcp_socket_bytes, tcp_received, tcp_socket_read,
  tcp_socket_error,
}
use tun2http.Tcp.Stream.{accepted}

-- What the stream knows of a session.
abbrev pub feed : Os → Option ℕ → TcpSession → List Call → List Segment × ℕ × List ℕ
feed os socket cur log = (cur.forward, cur.remote_seq, accepted os socket log)

module _ (os : Os) (socket : Option ℕ) where
  pub feed-write_rst :
      (cur : TcpSession) (log : List Call)
      → in_state cur.state TcpState.listen ≡ false
      → feed os socket (write_rst os cur log).0 (write_rst os cur log).1 ≡ feed os socket cur log
  unfolding write_rst write_tcp accepted
  feed-write_rst cur log up = ground arith

  accepted-write_ack :
      (cur : TcpSession) (log : List Call)
      → accepted os socket (write_ack os cur log).2 ≡ accepted os socket log
  unfolding write_ack write_tcp accepted
  accepted-write_ack cur log = ground arith

  accepted-write_fin_ack :
      (cur : TcpSession) (log : List Call)
      → accepted os socket (write_fin_ack os cur log).2 ≡ accepted os socket log
  unfolding write_fin_ack write_tcp accepted
  accepted-write_fin_ack cur log = ground arith

  accepted-write_data :
      (cur : TcpSession) (bytes : List ℕ) (log : List Call)
      → accepted os socket (write_data os cur bytes log).2 ≡ accepted os socket log
  unfolding write_data write_tcp accepted
  accepted-write_data cur bytes log = ground arith

  pub feed-acknowledge :
      (s : TcpNode) (fwd : Bool) (log : List Call)
      → in_state s.state TcpState.close_wait ≡ false
      → feed os socket (acknowledge os s fwd log).0.tcp (acknowledge os s fwd log).1
        ≡ feed os socket s.tcp log
  unfolding acknowledge accepted
  feed-acknowledge s fwd log up =
      let cur : TcpSession = record (s.tcp) {
        recv_window = get_receive_window os log s;
        remote_seq =
            if fwd && is_empty s.forward && in_state s.state TcpState.close_wait
            then u32 (s.remote_seq + 1)
            else s.remote_seq;
      } in
      ground (arith, write_ack_cases os cur log, accepted-write_ack cur log)

  feed-tcp_socket_eof :
      (s : TcpNode) (log : List Call)
      → in_state s.state TcpState.listen ≡ false
      → feed os socket (tcp_socket_eof os s log).0.tcp (tcp_socket_eof os s log).1
        ≡ feed os socket s.tcp log
  unfolding tcp_socket_eof finish accepted
  feed-tcp_socket_eof s log up = ground (
    arith,
    feed-write_rst s.tcp log up,
    write_fin_ack_cases os s.tcp log,
    accepted-write_fin_ack s.tcp log,
  )

  feed-tcp_received :
      (s : TcpNode) (r : Received) (log : List Call)
      → in_state s.state TcpState.listen ≡ false
      → feed os socket (tcp_received os s r log).0.tcp (tcp_received os s r log).1
        ≡ feed os socket s.tcp log
  unfolding tcp_received tcp_socket_bytes
  feed-tcp_received s (Received.failed true) log up = refl
  feed-tcp_received s (Received.failed false) log up = feed-write_rst s.tcp log up
  feed-tcp_received s (Received.bytes []) log up = feed-tcp_socket_eof s log up
  feed-tcp_received s (Received.bytes (b ∷ bytes)) log up =
      let cur : TcpSession = record (s.tcp) { received = s.received + length (b ∷ bytes) } in
      ground
        (arith, write_data_cases os cur log (b ∷ bytes), accepted-write_data cur (b ∷ bytes) log)

  pub feed-tcp_socket_read :
      (s : TcpNode) (ev : Events) (log : List Call)
      → in_state s.state TcpState.listen ≡ false
      → feed os socket (tcp_socket_read os s ev log).0.tcp (tcp_socket_read os s ev log).1
        ≡ feed os socket s.tcp log
  unfolding tcp_socket_read accepted
  feed-tcp_socket_read s ev log up =
      let s' : TcpNode = set_tcp s (record (s.tcp) { time = os.time log }) in
      elim (Bool-cases (is_open s.state && (ev.epollin && not (get_send_window s.tcp == 0)))) [
        | inl e ↦ rw e (feed-tcp_received s' _ _ up)
        | inr e ↦ rw e refl
      ]

  pub feed-tcp_socket_error :
      (s : TcpNode) (log : List Call)
      → in_state s.state TcpState.listen ≡ false
      → feed os socket (tcp_socket_error os s log).0.tcp (tcp_socket_error os s log).1
        ≡ feed os socket s.tcp log
  unfolding tcp_socket_error accepted
  feed-tcp_socket_error s log up =
      feed-write_rst (record (s.tcp) { time = os.time log }) (Call.time ∷ log) up
