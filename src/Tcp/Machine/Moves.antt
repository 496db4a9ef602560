-- ===== src/Tcp/Machine/Moves.antt =====
-- The states of a session's life.
use tun2http.Prelude.{
  ℕ, ◌+◌, ◌≡◌, Bool, true, false, Option, List, [], ◌∷◌, length, u32, arith, if◌then◌else◌, ◌==◌,
  not, ◌||◌, ◌&&◌, Bool-cases, inl, inr, ltb,
}
use tun2http.Os.{Os, Call, Events, Received}
use tun2http.Session.{TcpSession, TcpNode, TcpState, in_state}
use tun2http.Tcp.Window.{get_send_window, get_receive_buffer, get_receive_window}
use tun2http.Tcp.Write.{write_rst}
use tun2http.Tcp.Write.Reset.{
  write_rst_lem, write_ack_cases, write_syn_ack_cases, write_fin_ack_cases, write_data_cases,
}
use tun2http.Tcp.Invariant.{IsSound}
use tun2http.Tcp.Socket.Forward.{send_forward-IsForwarded}
use tun2http.Tcp.Check.{is_empty, is_open, check_tcp_session, expire_tcp, close_tcp, reset_usage}
use tun2http.Tcp.Socket.{
  set_tcp, tcp_socket_error, proxy_answer, tcp_connected, tcp_socket_listen, acknowledge, finish,
  tcp_socket_eof, tcp_socket_bytes, tcp_received, tcp_socket_read, forward_data, tcp_socket_open,
  check_tcp_socket,
}

-- Whether the socket may take a session from one state to the other: it stays, closes, is
-- connected, or the end of the stream ends its side.
abbrev pub socket_moves : TcpState → TcpState → Bool
socket_moves a b =
    in_state a b
    || (in_state b TcpState.closing
        || (in_state a TcpState.listen && in_state b TcpState.syn_recv
            || (in_state a TcpState.established && in_state b TcpState.fin_wait1
                || in_state a TcpState.close_wait && in_state b TcpState.last_ack)))

-- A step that stays or closes.
abbrev may_close : TcpState → TcpState → Bool
may_close a b = in_state a b || in_state b TcpState.closing

may_close_refl : (a : TcpState) → may_close a a ≡ true
may_close_refl a = ground arith

module _ (os : Os) where
  write_rst_closes :
      (cur : TcpSession) (log : List Call)
      → may_close cur.state (write_rst os cur log).0.state ≡ true
  write_rst_closes cur log = ground (arith, write_rst_lem os cur log)

  tcp_socket_error_moves :
      (s : TcpNode) (log : List Call) → may_close s.state (tcp_socket_error os s log).0.state ≡ true
  unfolding tcp_socket_error
  tcp_socket_error_moves s log =
      write_rst_closes (record (s.tcp) { time = os.time log }) (Call.time ∷ log)

  proxy_answer_moves :
      (s : TcpNode) (r : Received) (log : List Call)
      → in_state s.state TcpState.listen ≡ true
      → socket_moves s.state (proxy_answer os s r log).0.state ≡ true
  unfolding proxy_answer
  proxy_answer_moves s (Received.failed retry) log h = ground (arith, write_rst_closes s.tcp log)
  proxy_answer_moves s (Received.bytes bytes) log h = ground (arith, write_rst_lem os s.tcp log)

  tcp_connected_moves :
      (s : TcpNode) (log : List Call)
      → in_state s.state TcpState.listen ≡ true
      → socket_moves s.state (tcp_connected os s log).0.state ≡ true
  unfolding tcp_connected
  tcp_connected_moves s log h =
      ground
        (arith, write_syn_ack_cases os (record (s.tcp) { remote_seq = u32 (s.remote_seq + 1) }) log)

  acknowledge_moves :
      (s : TcpNode) (fwd : Bool) (log : List Call)
      → may_close s.state (acknowledge os s fwd log).0.state ≡ true
  unfolding acknowledge
  acknowledge_moves s fwd log =
      let confirm : Bool = fwd && is_empty s.forward && in_state s.state TcpState.close_wait in
      ground (
        arith,
        may_close_refl s.state,
        write_ack_cases os
            (record (s.tcp) {
              recv_window = get_receive_window os log s;
              remote_seq = if confirm then u32 (s.remote_seq + 1) else s.remote_seq;
            })
            log,
      )

  tcp_socket_eof_moves :
      (s : TcpNode) (log : List Call)
      → socket_moves s.state (tcp_socket_eof os s log).0.state ≡ true
  unfolding tcp_socket_eof finish
  tcp_socket_eof_moves s log =
      ground (arith, write_fin_ack_cases os s.tcp log, write_rst_lem os s.tcp log)

  tcp_socket_bytes_moves :
      (s : TcpNode) (bytes : List ℕ) (log : List Call)
      → may_close s.state (tcp_socket_bytes os s bytes log).0.state ≡ true
  unfolding tcp_socket_bytes
  tcp_socket_bytes_moves s bytes log = ground (
    arith,
    may_close_refl s.state,
    write_data_cases os (record (s.tcp) { received = s.received + length bytes }) log bytes,
  )

  tcp_received_moves :
      (s : TcpNode) (r : Received) (log : List Call)
      → socket_moves s.state (tcp_received os s r log).0.state ≡ true
  unfolding tcp_received
  tcp_received_moves s (Received.failed true) log = ground (arith, may_close_refl s.state)
  tcp_received_moves s (Received.failed false) log = ground (arith, write_rst_closes s.tcp log)
  tcp_received_moves s (Received.bytes []) log = tcp_socket_eof_moves s log
  tcp_received_moves s (Received.bytes (b ∷ bytes)) log =
      ground (arith, tcp_socket_bytes_moves s (b ∷ bytes) log)

  -- A session that reads is open, so that what came before left its state alone.
  tcp_socket_read_moves :
      (s : TcpNode) (a : TcpState) (ev : Events) (log : List Call)
      → may_close a s.state ≡ true
      → socket_moves a (tcp_socket_read os s ev log).0.state ≡ true
  unfolding tcp_socket_read
  tcp_socket_read_moves s a ev log h =
      let s' : TcpNode = set_tcp s (record (s.tcp) { time = os.time log }) in
      let window : ℕ = get_send_window s.tcp in
      let size : ℕ = if ltb s.mss window then s.mss else window in
      elim (Bool-cases (is_open s.state && (ev.epollin && not (window == 0)))) [
        | inl e ↦
            let m =
              tcp_received_moves s' (os.recv (Call.time ∷ log) s.socket size)
                (Call.recv s.socket size ∷ Call.time ∷ log) in
            ground arith
        | inr e ↦ rw e (ground arith)
      ]

module _ (os : Os) (patch : List ℕ → Option (List ℕ)) where
  forward_data_state :
      (s : TcpNode) (ev : Events) (log : List Call)
      → IsSound s
      → (forward_data os patch s ev log).1.state ≡ s.state
  unfolding forward_data
  forward_data_state s ev log h =
      let f =
        send_forward-IsForwarded os patch s.socket s.forward s.tcp
          (get_receive_buffer os log s.socket) false log h.session.queue.segments
          h.session.queue.ordered h.session.remote_fits in
      ground arith

  -- What a socket reports moves its session only as the TCP state machine allows: it stays or
  -- closes, from LISTEN it is in SYN_RECV once connected, and the end of the stream takes it from
  -- ESTABLISHED to FIN_WAIT1 and from CLOSE_WAIT to LAST_ACK.
  pub check_tcp_socket_moves :
      (s : TcpNode) (ev : Events) (log : List Call)
      → IsSound s
      → socket_moves s.state (check_tcp_socket os patch s ev log).0.state ≡ true
  unfolding check_tcp_socket tcp_socket_open tcp_socket_listen
  check_tcp_socket_moves s ev log h =
      let f : Bool × TcpNode × List Call = forward_data os patch s ev log in
      let acked : TcpNode × List Call = acknowledge os f.1 f.0 f.2 in
      let a : may_close s.state acked.0.state ≡ true =
        ground (arith, forward_data_state s ev log h, acknowledge_moves os f.1 f.0 f.2) in
      ground (
        arith,
        tcp_socket_error_moves os s log,
        proxy_answer_moves os s (os.recv log s.socket 12) (Call.recv s.socket 12 ∷ log),
        tcp_connected_moves os s log,
        tcp_socket_read_moves os acked.0 s.state ev acked.1 a,
      )

-- Whether the periodic check may take a session from one state to the other.
abbrev check_moves : TcpState → TcpState → Bool
check_moves a b = in_state a b && not (in_state a TcpState.closing) || in_state b TcpState.close

-- The periodic check leaves a session's state alone or takes it to CLOSE, and never leaves it in
-- CLOSING.
pub check_tcp_session_moves :
    (os : Os) (s : TcpNode) (sessions maxsessions : ℕ) (log : List Call)
    → check_moves s.state (check_tcp_session os s sessions maxsessions log).1.state ≡ true
unfolding check_tcp_session expire_tcp close_tcp reset_usage
check_tcp_session_moves os s sessions maxsessions log =
    ground (arith, write_rst_lem os s.tcp (Call.time ∷ log))
