-- ===== src/Tcp/Socket/Sound.antt =====
-- `check_tcp_socket` keeps what every operation on a session keeps.
use tun2http.Prelude.{
  ℕ, ◌+◌, ◌≡◌, refl, Bool, true, false, ◌&&◌, not, Option, List, [], ◌∷◌, u32, arith, if◌then◌else◌,
  Bool-cases, inl, inr, ◌==◌, length, ltb,
}
use tun2http.Os.{Os, Call, Events, Received}
use tun2http.Session.{TcpSession, TcpNode, TcpState, in_state}
use tun2http.Tcp.Invariant.{IsSession, IsSound}
use tun2http.Tcp.Window.{get_send_window, get_receive_buffer, get_receive_window}
use tun2http.Tcp.Write.{write_rst}
use tun2http.Tcp.Write.Reset.{
  write_rst_lem, write_ack_cases, write_syn_ack_cases, write_fin_ack_cases, write_data_cases,
}
use tun2http.Tcp.Check.{is_empty, is_open}
use tun2http.Tcp.Socket.{
  tcp_socket_error, proxy_answer, tcp_connected, tcp_socket_listen, acknowledge, finish,
  tcp_socket_eof, tcp_socket_bytes, tcp_received, tcp_socket_read, forward_data, tcp_socket_open,
  check_tcp_socket, set_tcp,
}
use tun2http.Tcp.Socket.Forward.{send_forward-IsForwarded}

module _ (os : Os) where
  pub reset-IsSound :
      (s : TcpNode) (cur : TcpSession) (log : List Call)
      → IsSound s
      → IsSession cur
      → cur.state ≡ s.state
      → IsSound (set_tcp s (write_rst os cur log).0)
  reset-IsSound s cur log h c e = ground (arith, write_rst_lem os cur log)

  tcp_socket_error-IsSound :
      (s : TcpNode) (log : List Call) → IsSound s → IsSound (tcp_socket_error os s log).0
  unfolding tcp_socket_error
  tcp_socket_error-IsSound s log h =
      ground (arith, write_rst_lem os (record (s.tcp) { time = os.time log }) (Call.time ∷ log))

  proxy_answer-IsSound :
      (s : TcpNode) (r : Received) (log : List Call)
      → IsSound s
      → IsSound (proxy_answer os s r log).0
  unfolding proxy_answer
  proxy_answer-IsSound s (Received.failed retry) log h = reset-IsSound s s.tcp log h h.session refl
  proxy_answer-IsSound s (Received.bytes bytes) log h =
      ground (arith, reset-IsSound s s.tcp log h h.session refl)

  tcp_connected-IsSound :
      (s : TcpNode) (log : List Call) → IsSound s → IsSound (tcp_connected os s log).0
  unfolding tcp_connected
  tcp_connected-IsSound s log h =
      ground
        (arith, write_syn_ack_cases os (record (s.tcp) { remote_seq = u32 (s.remote_seq + 1) }) log)

  tcp_socket_listen-IsSound :
      (s : TcpNode) (ev : Events) (log : List Call)
      → IsSound s
      → IsSound (tcp_socket_listen os s ev log).0
  unfolding tcp_socket_listen
  tcp_socket_listen-IsSound s ev log h = ground (
    arith,
    proxy_answer-IsSound s (os.recv log s.socket 12) (Call.recv s.socket 12 ∷ log) h,
    tcp_connected-IsSound s log h,
  )

  acknowledge-IsSound :
      (s : TcpNode) (fwd : Bool) (log : List Call)
      → IsSound s
      → IsSound (acknowledge os s fwd log).0
  unfolding acknowledge
  acknowledge-IsSound s fwd log h =
      let confirm : Bool = fwd && is_empty s.forward && in_state s.state TcpState.close_wait in
      ground (
        arith,
        write_ack_cases os
            (record (s.tcp) {
              recv_window = get_receive_window os log s;
              remote_seq = if confirm then u32 (s.remote_seq + 1) else s.remote_seq;
            })
            log,
      )

  finish-IsSession :
      (cur : TcpSession) (log : List Call) → IsSession cur → IsSession (finish os cur log).0
  unfolding finish
  finish-IsSession cur log h = ground (arith, write_fin_ack_cases os cur log)

  write_rst-IsSession :
      (cur : TcpSession) (log : List Call) → IsSession cur → IsSession (write_rst os cur log).0
  write_rst-IsSession cur log h = ground (arith, write_rst_lem os cur log)

  tcp_socket_eof-IsSound :
      (s : TcpNode) (log : List Call) → IsSound s → IsSound (tcp_socket_eof os s log).0
  unfolding tcp_socket_eof
  tcp_socket_eof-IsSound s log h =
      ground (arith, finish-IsSession s.tcp log h.session, write_rst-IsSession s.tcp log h.session)

  tcp_socket_bytes-IsSound :
      (s : TcpNode) (bytes : List ℕ) (log : List Call)
      → IsSound s
      → IsSound (tcp_socket_bytes os s bytes log).0
  unfolding tcp_socket_bytes
  tcp_socket_bytes-IsSound s bytes log h = ground (
    arith,
    write_data_cases os (record (s.tcp) { received = s.received + length bytes }) log bytes,
  )

  tcp_received-IsSound :
      (s : TcpNode) (r : Received) (log : List Call)
      → IsSound s
      → IsSound (tcp_received os s r log).0
  unfolding tcp_received
  tcp_received-IsSound s (Received.failed true) log h = h
  tcp_received-IsSound s (Received.failed false) log h = reset-IsSound s s.tcp log h h.session refl
  tcp_received-IsSound s (Received.bytes []) log h = tcp_socket_eof-IsSound s log h
  tcp_received-IsSound s (Received.bytes (b ∷ bytes)) log h =
      tcp_socket_bytes-IsSound s (b ∷ bytes) log h

  tcp_socket_read-IsSound :
      (s : TcpNode) (ev : Events) (log : List Call)
      → IsSound s
      → IsSound (tcp_socket_read os s ev log).0
  unfolding tcp_socket_read
  tcp_socket_read-IsSound s ev log h =
      let s' : TcpNode = set_tcp s (record (s.tcp) { time = os.time log }) in
      let window : ℕ = get_send_window s.tcp in
      let size : ℕ = if ltb s.mss window then s.mss else window in
      let h' : IsSound s' = ground arith in
      elim (Bool-cases (is_open s.state && (ev.epollin && not (window == 0)))) [
        | inl e ↦ rw e (tcp_received-IsSound s' _ _ h')
        | inr e ↦ rw e h
      ]

module _ (os : Os) (patch : List ℕ → Option (List ℕ)) where
  forward_data-IsSound :
      (s : TcpNode) (ev : Events) (log : List Call)
      → IsSound s
      → IsSound (forward_data os patch s ev log).1
  unfolding forward_data
  forward_data-IsSound s ev log h =
      let f =
        send_forward-IsForwarded os patch s.socket s.forward s.tcp
          (get_receive_buffer os log s.socket) false log h.session.queue.segments
          h.session.queue.ordered h.session.remote_fits in
      ground arith

  -- Whatever the socket reports and whatever the calls answer, `check_tcp_socket` keeps the
  -- session's invariant: the queue is in order and within its bytes, the sequence numbers fit, and
  -- a session in a state without a socket has none.
  pub check_tcp_socket-IsSound :
      (s : TcpNode) (ev : Events) (log : List Call)
      → IsSound s
      → IsSound (check_tcp_socket os patch s ev log).0
  unfolding check_tcp_socket tcp_socket_open
  check_tcp_socket-IsSound s ev log h =
      let f : Bool × TcpNode × List Call = forward_data os patch s ev log in
      let a = acknowledge-IsSound os f.1 f.0 f.2 (forward_data-IsSound s ev log h) in
      let acked : TcpNode × List Call = acknowledge os f.1 f.0 f.2 in
      ground (
        arith,
        tcp_socket_error-IsSound os s log h,
        tcp_socket_listen-IsSound os s ev log h,
        tcp_socket_read-IsSound os acked.0 ev acked.1 a,
      )
