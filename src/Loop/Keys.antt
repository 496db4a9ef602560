-- ===== src/Loop/Keys.antt =====
-- No event of a session's socket, and no periodic check, changes what a packet finds the session by.
use tun2http.Prelude.{
  ℕ, ◌+◌, ◌≡◌, refl, ◌∙◌, Bool, true, false, ◌&&◌, not, Option, List, [], ◌∷◌, u32, sub32, arith,
  if◌then◌else◌, Bool-cases, inl, inr, ◌==◌, length,
}
use tun2http.Os.{Os, Call, Events, Received}
use tun2http.Session.{TcpSession, TcpNode, TcpState, in_state}
use tun2http.Tcp.Window.{get_send_window, get_receive_buffer, get_receive_window}
use tun2http.Tcp.Write.{write_rst}
use tun2http.Tcp.Write.Reset.{
  write_rst_lem, write_ack_cases, write_syn_ack_cases, write_fin_ack_cases, write_data_cases,
}
use tun2http.Tcp.Check.{
  is_empty, is_open, reset_usage, expire_tcp, close_tcp, check_tcp_session, probe_window, watch_tcp,
  wanted_events, set_events, monitor_tcp_session,
}
use tun2http.Tcp.Socket.{
  tcp_socket_error, proxy_answer, tcp_connected, tcp_socket_listen, acknowledge, finish,
  tcp_socket_eof, tcp_socket_bytes, tcp_received, tcp_socket_read, forward_data, tcp_socket_open,
  check_tcp_socket, set_tcp,
}
use tun2http.Tcp.Handle.Keys.{key, key-send_forward}

module _ (os : Os) where
  key-write_rst : (cur : TcpSession) (log : List Call) → key (write_rst os cur log).0 ≡ key cur
  key-write_rst cur log = rw (write_rst_lem os cur log) refl

  pub key-check_tcp_session :
      (s : TcpNode) (n m : ℕ) (log : List Call)
      → key (check_tcp_session os s n m log).1.tcp ≡ key s.tcp
  unfolding check_tcp_session expire_tcp close_tcp reset_usage
  key-check_tcp_session s n m log = ground (arith, key-write_rst s.tcp (Call.time ∷ log))

  key-probe_window :
      (cur : TcpSession) (log : List Call) → key (probe_window os cur log).0 ≡ key cur
  unfolding probe_window
  key-probe_window cur log = ground (
    arith,
    write_ack_cases os
        (record cur { last_keep_alive = os.get_ms log; remote_seq = sub32 cur.remote_seq 1 })
        (Call.get_ms ∷ log),
  )

  key-watch_tcp : (s : TcpNode) (log : List Call) → key (watch_tcp os s log).0.tcp ≡ key s.tcp
  unfolding watch_tcp
  key-watch_tcp s log = ground (arith, key-probe_window s.tcp log)

  key-set_events :
      (s : TcpNode) (ev : Events) (log : List Call) → key (set_events os s ev log).0.tcp ≡ key s.tcp
  unfolding set_events
  key-set_events s ev log = ground arith

  pub key-monitor_tcp_session :
      (s : TcpNode) (log : List Call) → key (monitor_tcp_session os s log).1.tcp ≡ key s.tcp
  unfolding monitor_tcp_session
  key-monitor_tcp_session s log =
      let watched = watch_tcp os s log in
      key-set_events watched.0 (wanted_events os s watched.0 watched.1).1 watched.1
      ∙ key-watch_tcp s log

  key-proxy_answer :
      (s : TcpNode) (r : Received) (log : List Call)
      → key (proxy_answer os s r log).0.tcp ≡ key s.tcp
  unfolding proxy_answer
  key-proxy_answer s (Received.failed retry) log = key-write_rst s.tcp log
  key-proxy_answer s (Received.bytes bytes) log = ground (arith, key-write_rst s.tcp log)

  key-tcp_socket_listen :
      (s : TcpNode) (ev : Events) (log : List Call)
      → key (tcp_socket_listen os s ev log).0.tcp ≡ key s.tcp
  unfolding tcp_socket_listen tcp_connected
  key-tcp_socket_listen s ev log = ground (
    arith,
    key-proxy_answer s (os.recv log s.socket 12) (Call.recv s.socket 12 ∷ log),
    write_syn_ack_cases os (record (s.tcp) { remote_seq = u32 (s.remote_seq + 1) }) log,
  )

  key-acknowledge :
      (s : TcpNode) (fwd : Bool) (log : List Call)
      → key (acknowledge os s fwd log).0.tcp ≡ key s.tcp
  unfolding acknowledge
  key-acknowledge s fwd log =
      let confirm : Bool = fwd && is_empty s.forward && in_state s.state TcpState.close_wait in
      ground (
        arith,
        write_ack_cases os
            (record (s.tcp) {
              recv_window = get_receive_window os log s;
              remote_seq = if confirm then u32 (s.remote_seq + 1) else s.remote_seq;
            })
            log,
      )

  key-finish : (cur : TcpSession) (log : List Call) → key (finish os cur log).0 ≡ key cur
  unfolding finish
  key-finish cur log = ground (arith, write_fin_ack_cases os cur log)

  key-tcp_received :
      (s : TcpNode) (r : Received) (log : List Call)
      → key (tcp_received os s r log).0.tcp ≡ key s.tcp
  unfolding tcp_received tcp_socket_eof tcp_socket_bytes
  key-tcp_received s (Received.failed true) log = refl
  key-tcp_received s (Received.failed false) log = key-write_rst s.tcp log
  key-tcp_received s (Received.bytes []) log =
      ground (arith, key-finish s.tcp log, key-write_rst s.tcp log)
  key-tcp_received s (Received.bytes (b ∷ bytes)) log = ground (
    arith,
    write_data_cases os (record (s.tcp) { received = s.received + length (b ∷ bytes) }) log
        (b ∷ bytes),
  )

  key-tcp_socket_read :
      (s : TcpNode) (ev : Events) (log : List Call)
      → key (tcp_socket_read os s ev log).0.tcp ≡ key s.tcp
  unfolding tcp_socket_read
  key-tcp_socket_read s ev log =
      let s' : TcpNode = set_tcp s (record (s.tcp) { time = os.time log }) in
      elim (Bool-cases (is_open s.state && (ev.epollin && not (get_send_window s.tcp == 0)))) [
        | inl e ↦ rw e (key-tcp_received s' _ _)
        | inr e ↦ rw e refl
      ]

module _ (os : Os) (patch : List ℕ → Option (List ℕ)) where
  key-forward_data :
      (s : TcpNode) (ev : Events) (log : List Call)
      → key (forward_data os patch s ev log).1.tcp ≡ key s.tcp
  unfolding forward_data
  key-forward_data s ev log = ground (
    arith,
    key-send_forward os patch s.socket s.forward s.tcp (get_receive_buffer os log s.socket) false
        log,
  )

  key-tcp_socket_open :
      (s : TcpNode) (ev : Events) (log : List Call)
      → key (tcp_socket_open os patch s ev log).0.tcp ≡ key s.tcp
  unfolding tcp_socket_open
  key-tcp_socket_open s ev log =
      let forwarded = forward_data os patch s ev log in
      let acked = acknowledge os forwarded.1 forwarded.0 forwarded.2 in
      key-tcp_socket_read os acked.0 ev acked.1
      ∙ key-acknowledge os forwarded.1 forwarded.0 forwarded.2
      ∙ key-forward_data s ev log

  pub key-check_tcp_socket :
      (s : TcpNode) (ev : Events) (log : List Call)
      → key (check_tcp_socket os patch s ev log).0.tcp ≡ key s.tcp
  unfolding check_tcp_socket tcp_socket_error
  key-check_tcp_socket s ev log = ground (
    arith,
    key-tcp_socket_listen os s ev log,
    key-tcp_socket_open s ev log,
    key-write_rst os (record (s.tcp) { time = os.time log }) (Call.time ∷ log),
  )
