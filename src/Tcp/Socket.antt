-- ===== src/Tcp/Socket.antt =====
-- android_app/app/src/main/cpp/tcp.c: `check_tcp_socket`, which runs when a session's socket is
-- ready. `patch` is `patch_http_url` of http.c, with `none` for its null pointer. The 64-bit byte
-- counts do not wrap.
pub mod Forward
pub mod Receive
pub mod Sound
use tun2http.Prelude.{
  ℕ, ◌+◌, ◌-◌, ◌^◌, Bool, true, false, not, ◌&&◌, ◌||◌, Option, none, some, List, [], ◌∷◌, ltb,
  ◌==◌, if◌then◌else◌, u32, sub32, swap16, length, take, drop,
}
use tun2http.Util.{c_string}
use tun2http.Os.{Os, Call, Events, Sent, Received}
use tun2http.Session.{
  Segment, TcpSession, TcpNode, TcpState, ConnectState, in_state, in_connect, same_bytes,
}
use tun2http.Tcp.Window.{get_send_window, get_receive_buffer, get_receive_window}
use tun2http.Tcp.Write.{write_rst, write_ack, write_data, write_syn_ack, write_fin_ack}
use tun2http.Tcp.Check.{head_ready, is_empty, is_open, close_socket}

-- Where a call leaves a session and the log.
abbrev pub Run : Type 0
Run = TcpSession × List Call

-- What is sent of a segment: the bytes behind those sent before, up to its length.
abbrev pub pending : Segment → List ℕ
pending q = take (q.len - q.sent) (drop q.sent q.bytes)

-- `if (sent > len) sent = len`. The test compares an `ssize_t` with a `size_t`, so that -1 counts
-- as the largest number and is above every length.
unfoldable pub clamp_sent : Sent → ℕ → Sent
clamp_sent (Sent.failed retry) len = Sent.sent len
clamp_sent (Sent.sent n) len = if ltb len n then Sent.sent len else Sent.sent n

abbrev pub set_tcp : TcpNode → TcpSession → TcpNode
set_tcp s cur = record s { tcp = cur }

abbrev pub http_200 : ℕ → List ℕ
http_200 minor =
    b'H' ∷ b'T' ∷ b'T' ∷ b'P' ∷ b'/' ∷ b'1' ∷ b'.' ∷ minor ∷ b' ' ∷ b'2' ∷ b'0' ∷ b'0' ∷ []

abbrev pub is_proxy_ok : List ℕ → Bool
is_proxy_ok bytes =
    same_bytes (c_string bytes) (http_200 b'0') || same_bytes (c_string bytes) (http_200 b'1')

-- The state after the end of the stream.
abbrev pub after_eof : TcpState → TcpState
after_eof state =
    if in_state state TcpState.established
    then TcpState.fin_wait1
    else if in_state state TcpState.close_wait
    then TcpState.last_ack
    else state

-- What `n` sent bytes leave of the session and of the first segment.
abbrev pub count_sent : TcpSession → Segment → ℕ → TcpSession
count_sent cur q n = record cur { sent = cur.sent + n; remote_seq = u32 (q.seq + (q.sent + n)) }

module _ (os : Os) (patch : List ℕ → Option (List ℕ)) where
  -- The data of a segment for port 80 goes through `patch`.
  unfoldable pub outgoing : TcpSession → Segment → List ℕ
  outgoing cur q =
      if swap16 cur.dest == 80
      then elim (patch (pending q)) [ none ↦ pending q | some patched ↦ patched ]
      else pending q

  -- The loop that sends queued segments, over the queue; `size` is the room in the socket's buffer.
  -- The answer says whether anything was sent; the queue that is left is in the session.
  unfoldable pub send_forward :
      Option ℕ → List Segment → TcpSession → ℕ → Bool → List Call → Bool × TcpSession × List Call
  send_forward socket [] cur size fwd log = (fwd, record cur { forward = [] }, log)
  send_forward socket (q ∷ rest) cur size fwd log =
      let stay : TcpSession = record cur { forward = q ∷ rest } in
      let len : ℕ = q.len - q.sent in
      let log' : List Call = Call.send socket (outgoing cur q) (not q.psh) ∷ log in
      elim (head_ready (q ∷ rest) cur.remote_seq size) [
        | false ↦ (fwd, stay, log)
        | true ↦ elim (clamp_sent (os.send log socket (outgoing cur q) (not q.psh)) len) [
          | Sent.failed true ↦ (fwd, stay, log')
          | Sent.failed false ↦ (fwd, (write_rst os stay log').0, (write_rst os stay log').1)
          | Sent.sent n ↦ elim (q.len == q.sent + n) [
            | true ↦ send_forward socket rest (count_sent cur q n) (sub32 size n) true log'
            | false ↦ (
              true,
              record (count_sent cur q n) { forward = record q { sent = q.sent + n } ∷ rest },
              log',
            )
          ]
        ]
      ]

module _ (os : Os) where
  unfoldable pub tcp_socket_error : TcpNode → List Call → TcpNode × List Call
  tcp_socket_error s log =
      let reset = write_rst os (record (s.tcp) { time = os.time log }) (Call.time ∷ log) in
      (record s { tcp = reset.0 }, reset.1)

  -- The proxy's answer to CONNECT.
  unfoldable pub proxy_answer : TcpNode → Received → List Call → TcpNode × List Call
  proxy_answer s (Received.failed retry) log =
      (set_tcp s (write_rst os s.tcp log).0, (write_rst os s.tcp log).1)
  proxy_answer s (Received.bytes bytes) log =
      if in_connect s.connect_sent ConnectState.connect_sent
      then if is_proxy_ok bytes
        then (
          set_tcp s (record (s.tcp) {
            connect_sent = ConnectState.connect_established;
            state = TcpState.syn_recv;
          }),
          Call.drain s.socket ∷ log,
        )
        else (set_tcp s (write_rst os s.tcp log).0, (write_rst os s.tcp log).1)
      else (s, log)

  -- The socket has connected: the SYN is answered.
  unfoldable pub tcp_connected : TcpNode → List Call → TcpNode × List Call
  tcp_connected s log =
      let (ok, cur, log') =
        write_syn_ack os (record (s.tcp) { remote_seq = u32 (s.remote_seq + 1) }) log in
      if ok
      then (
        set_tcp s (record cur {
          time = os.time log';
          local_seq = u32 (cur.local_seq + 1);
          state = TcpState.syn_recv;
        }),
        Call.time ∷ log',
      )
      else (set_tcp s cur, log')

  unfoldable pub tcp_socket_listen : TcpNode → Events → List Call → TcpNode × List Call
  tcp_socket_listen s ev log =
      if ev.epollin
      then proxy_answer s (os.recv log s.socket 12) (Call.recv s.socket 12 ∷ log)
      else tcp_connected s log

  -- The receive window, and the ACK for what was forwarded.
  unfoldable pub acknowledge : TcpNode → Bool → List Call → TcpNode × List Call
  acknowledge s fwd log =
      let window = get_receive_window os log s in
      let confirm = fwd && is_empty s.forward && in_state s.state TcpState.close_wait in
      let cur = record (s.tcp) {
        recv_window = window;
        remote_seq = if confirm then u32 (s.remote_seq + 1) else s.remote_seq;
      } in
      let (ok, cur', log') = write_ack os cur log in
      if fwd || s.recv_window == 0 && ltb 0 window
      then if ok
        then (set_tcp s (record cur' { time = os.time log' }), Call.time ∷ log')
        else (set_tcp s cur', log')
      else (set_tcp s (record (s.tcp) { recv_window = window }), log)

  unfoldable pub finish : TcpSession → List Call → TcpSession × List Call
  finish cur log =
      let (ok, cur', log') = write_fin_ack os cur log in
      (
        record cur' {
          local_seq = if ok then u32 (cur'.local_seq + 1) else cur'.local_seq;
          state = after_eof cur'.state;
        },
        log',
      )

  -- The socket's stream has ended: a FIN, or a reset if data is still queued, and the socket closes.
  unfoldable pub tcp_socket_eof : TcpNode → List Call → TcpNode × List Call
  tcp_socket_eof s log =
      let ended = if is_empty s.forward then finish s.tcp log else write_rst os s.tcp log in
      (record s { tcp = ended.0; socket = none }, close_socket s.socket ended.1)

  unfoldable pub tcp_socket_bytes : TcpNode → List ℕ → List Call → TcpNode × List Call
  tcp_socket_bytes s bytes log =
      let (ok, cur, log') =
        write_data os (record (s.tcp) { received = s.received + length bytes }) bytes log in
      (
        set_tcp s (record cur {
          local_seq = if ok then u32 (cur.local_seq + length bytes) else cur.local_seq;
        }),
        log',
      )

  unfoldable pub tcp_received : TcpNode → Received → List Call → TcpNode × List Call
  tcp_received s (Received.failed true) log = (s, log)
  tcp_received s (Received.failed false) log =
      (set_tcp s (write_rst os s.tcp log).0, (write_rst os s.tcp log).1)
  tcp_received s (Received.bytes []) log = tcp_socket_eof s log
  tcp_received s (Received.bytes (b ∷ bytes)) log = tcp_socket_bytes s (b ∷ bytes) log

  -- At most the segment size and the send window are read.
  unfoldable pub tcp_socket_read : TcpNode → Events → List Call → TcpNode × List Call
  tcp_socket_read s ev log =
      let window = get_send_window s.tcp in
      let size = if ltb s.mss window then s.mss else window in
      let s' = set_tcp s (record (s.tcp) { time = os.time log }) in
      let log' = Call.time ∷ log in
      if is_open s.state && (ev.epollin && not (window == 0))
      then tcp_received s' (os.recv log' s.socket size) (Call.recv s.socket size ∷ log')
      else (s, log)

module _ (os : Os) (patch : List ℕ → Option (List ℕ)) where
  -- The queue is forwarded when the socket takes data.
  unfoldable pub forward_data : TcpNode → Events → List Call → Bool × TcpNode × List Call
  forward_data s ev log =
      let (fwd, cur, log') =
        send_forward os patch s.socket s.forward s.tcp (get_receive_buffer os log s.socket) false
          log in
      if ev.epollout then (fwd, set_tcp s cur, log') else (false, s, log)

  unfoldable pub tcp_socket_open : TcpNode → Events → List Call → TcpNode × List Call
  tcp_socket_open s ev log =
      let (fwd, s', log') = forward_data s ev log in
      let acked = acknowledge os s' fwd log' in tcp_socket_read os acked.0 ev acked.1

  unfoldable pub check_tcp_socket : TcpNode → Events → List Call → TcpNode × List Call
  check_tcp_socket s ev log =
      if ev.epollerr
      then tcp_socket_error os s log
      else if in_state s.state TcpState.listen
      then tcp_socket_listen os s ev log
      else tcp_socket_open s ev log
