-- ===== src/Tcp/Check.antt =====
-- android_app/app/src/main/cpp/tcp.c: `check_tcp_session`, the periodic check of one session, and
-- `monitor_tcp_session`, which sets what its socket is watched for. Each returns its answer, the
-- session and the log of calls.
pub mod Life
pub mod Monitor
use tun2http.Prelude.{
  ℕ, ◌+◌, ◌-◌, ◌^◌, Bool, true, false, not, ◌&&◌, ◌||◌, Option, none, some, List, [], ◌∷◌, ltb,
  ◌==◌, if◌then◌else◌, u32, sub32, swap16, ℤ, pos, ◌+ℤ◌, ltb_ℤ,
}
use tun2http.Os.{Os, Call, Events}
use tun2http.Session.{Segment, TcpSession, TcpNode, TcpState, ConnectState, in_state, in_connect}
use tun2http.Tcp.Window.{get_tcp_timeout, get_send_window, get_receive_buffer}
use tun2http.Tcp.Write.{write_rst, write_ack}

abbrev tcp_keep_timeout : ℕ
tcp_keep_timeout = 300

abbrev pub epoll_min_check : ℕ
epoll_min_check = 100

-- CLOSING or CLOSE.
abbrev pub is_closed : TcpState → Bool
is_closed state = in_state state TcpState.closing || in_state state TcpState.close

-- A closed session forgets what it carried.
unfoldable pub reset_usage : TcpNode → TcpNode
reset_usage s =
    if is_closed s.state && (not (s.sent == 0) || not (s.received == 0))
    then record s { tcp = record (s.tcp) { sent = 0; received = 0 } }
    else s

abbrev pub close_socket : Option ℕ → List Call → List Call
close_socket none log = log
close_socket (some k) log = Call.close (some k) ∷ log

abbrev pub is_open : TcpState → Bool
is_open state = in_state state TcpState.established || in_state state TcpState.close_wait

module _ (os : Os) where
  -- The session's timeout is over: a session that never connected closes, another one is reset.
  unfoldable pub expire_tcp : TcpNode → ℤ → ℕ → List Call → TcpNode × List Call
  unfolding ◌+ℤ◌
  expire_tcp s timeout now log =
      if not (is_closed s.state) && ltb_ℤ (pos s.time +ℤ timeout) (pos now)
      then if in_state s.state TcpState.listen
        then (record s { tcp = record (s.tcp) { state = TcpState.closing } }, log)
        else (record s { tcp = (write_rst os s.tcp log).0 }, (write_rst os s.tcp log).1)
      else (s, log)

  -- A closing session gives its socket back.
  unfoldable pub close_tcp : TcpNode → List Call → TcpNode × List Call
  close_tcp s log =
      let log' = close_socket s.socket log in
      if in_state s.state TcpState.closing
      then (
        record s {
          tcp = record (s.tcp) { time = os.time log'; state = TcpState.close };
          socket = none;
        },
        Call.time ∷ log',
      )
      else (s, log)

  -- The answer is whether the session is to be deleted.
  unfoldable pub check_tcp_session : TcpNode → ℕ → ℕ → List Call → Bool × TcpNode × List Call
  check_tcp_session s sessions maxsessions log =
      let now = os.time log in
      let expired =
        expire_tcp s (get_tcp_timeout s.tcp sessions maxsessions) now (Call.time ∷ log) in
      let closed = close_tcp expired.0 expired.1 in
      let s' = reset_usage closed.0 in
      (in_state s'.state TcpState.close && ltb (s'.time + tcp_keep_timeout) now, s', closed.1)

-- The first queued segment is next in line and fits a buffer of `size` bytes.
abbrev pub head_ready : List Segment → ℕ → ℕ → Bool
head_ready [] remote_seq size = false
head_ready (q ∷ rest) remote_seq size =
    u32 (q.seq + q.sent) == remote_seq && ltb (u32 (2 ^ 32 + q.len - q.sent)) size

abbrev pub is_empty : List Segment → Bool
is_empty [] = true
is_empty (q ∷ rest) = false

abbrev bool_eq : Bool → Bool → Bool
bool_eq true b = b
bool_eq false b = not b

abbrev same_events : Events → Events → Bool
same_events a b =
    bool_eq a.epollin b.epollin && bool_eq a.epollout b.epollout && bool_eq a.epollerr b.epollerr

module _ (os : Os) where
  -- With the send window shut, an ACK for the byte before asks for a new one now and then.
  unfoldable pub probe_window : TcpSession → List Call → TcpSession × List Call
  probe_window cur log =
      let ms = os.get_ms log in
      let probe = record cur { last_keep_alive = ms; remote_seq = sub32 cur.remote_seq 1 } in
      let wrote = write_ack os probe (Call.get_ms ∷ log) in
      if ltb (cur.last_keep_alive + epoll_min_check) ms
      then (record (wrote.1) { remote_seq = u32 (wrote.1.remote_seq + 1) }, wrote.2)
      else (cur, Call.get_ms ∷ log)

  -- The session after a probe, and the log.
  unfoldable pub watch_tcp : TcpNode → List Call → TcpNode × List Call
  watch_tcp s log =
      if is_open s.state && get_send_window s.tcp == 0
      then (record s { tcp = (probe_window s.tcp log).0 }, (probe_window s.tcp log).1)
      else (s, log)

  -- The events to watch for, and whether to look again soon, by the state at the start.
  unfoldable pub wanted_events : TcpNode → TcpNode → List Call → Bool × Events
  wanted_events s watched log =
      let ready =
        head_ready watched.forward watched.remote_seq (get_receive_buffer os log watched.socket) in
      let window = not (get_send_window s.tcp == 0) in
      if in_state s.state TcpState.listen
      then if in_connect s.connect_sent ConnectState.connect_sent && swap16 s.dest == 443
        then (false, record { epollin = true; epollout = false; epollerr = true })
        else (false, record { epollin = false; epollout = true; epollerr = true })
      else if is_open s.state
      then (
        not window || not (is_empty watched.forward) && not ready,
        record { epollin = window; epollout = ready; epollerr = true },
      )
      else (false, record { epollin = false; epollout = false; epollerr = true })

  unfoldable pub set_events : TcpNode → Events → List Call → TcpNode × List Call
  set_events s events log =
      let s' = record s { events = events } in
      if same_events events s.events then (s, log) else (
        if os.epoll_mod log s.socket events
            then record s' { tcp = record (s'.tcp) { state = TcpState.closing } }
            else s',
        Call.epoll_mod s.socket events ∷ log,
      )

  unfoldable pub monitor_tcp_session : TcpNode → List Call → Bool × TcpNode × List Call
  monitor_tcp_session s log =
      let watched = watch_tcp s log in
      let wanted = wanted_events s watched.0 watched.1 in
      let set = set_events watched.0 wanted.1 watched.1 in (wanted.0, set.0, set.1)
