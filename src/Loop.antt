-- ===== src/Loop.antt =====
-- android_app/app/src/main/cpp/session.c: what `handle_events` does in each round before it waits,
-- `check_allowed` and `clear`, over the list of all sessions.
pub mod Sweep
pub mod Allowed
pub mod Keys
pub mod Life
pub mod Events
use tun2http.Prelude.{
  ℕ, ◌+◌, Bool, true, false, not, ◌&&◌, ◌||◌, Option, none, some, List, [], ◌∷◌, ltb, if◌then◌else◌,
  ℤ, pos, negsuc, ◌+ℤ◌, pos_part, neg_part, sub_ℕ,
}
use tun2http.Os.{Os, Call}
use tun2http.Session.{
  has_socket, IcmpSession, UdpSession, TcpSession, IcmpNode, UdpNode, TcpNode, NgSession, UdpState,
  in_udp,
}
use tun2http.Tcp.Window.{get_tcp_timeout}
use tun2http.Tcp.Write.{write_rst}
use tun2http.Tcp.Check.{is_closed, check_tcp_session, monitor_tcp_session, close_socket}
use tun2http.Udp.Check.{get_udp_timeout, check_udp_session, finishing}
use tun2http.Icmp.{get_icmp_timeout, check_icmp_session}

abbrev epoll_timeout : ℕ
epoll_timeout = 3600

-- Whether a session counts, and has a timeout to wait for.
abbrev is_active : NgSession → Bool
is_active (NgSession.icmp_session s) = not s.stop
is_active (NgSession.udp_session s) = in_udp s.state UdpState.udp_active
is_active (NgSession.tcp_session s) = not (is_closed s.state)

unfoldable pub count_sessions : List NgSession → ℕ
count_sessions [] = 0
count_sessions (s ∷ rest) = let n = count_sessions rest in if is_active s then 1 + n else n

abbrev pub last_time : NgSession → ℕ
last_time (NgSession.icmp_session s) = s.time
last_time (NgSession.udp_session s) = s.time
last_time (NgSession.tcp_session s) = s.time

abbrev pub session_timeout : NgSession → ℕ → ℕ → ℤ
session_timeout (NgSession.icmp_session s) sessions maxsessions =
    get_icmp_timeout s.icmp sessions maxsessions
session_timeout (NgSession.udp_session s) sessions maxsessions =
    get_udp_timeout s.udp sessions maxsessions
session_timeout (NgSession.tcp_session s) sessions maxsessions =
    get_tcp_timeout s.tcp sessions maxsessions

-- `if (stimeout > 0 && stimeout < timeout) timeout = stimeout`
abbrev pub sooner : ℤ → ℕ → ℕ
sooner (pos n) timeout = if ltb 0 n && ltb n timeout then n else timeout
sooner (negsuc n) timeout = timeout

-- The time to wait, given a session that stays.
unfoldable pub wait_for : NgSession → ℕ → ℕ → ℕ → ℕ → ℕ
unfolding ◌+ℤ◌
wait_for s sessions maxsessions now timeout =
    let due = pos (last_time s + 1) +ℤ session_timeout s sessions maxsessions in
    if is_active s then sooner (sub_ℕ (pos_part due) (neg_part due + now)) timeout else timeout

module _ (os : Os) where
  unfoldable pub check_session : NgSession → ℕ → ℕ → List Call → Bool × NgSession × List Call
  check_session (NgSession.icmp_session s) sessions maxsessions log =
      let (del, s', log') = check_icmp_session os s sessions maxsessions log in
      (del, NgSession.icmp_session s', log')
  check_session (NgSession.udp_session s) sessions maxsessions log =
      let (del, s', log') = check_udp_session os s sessions maxsessions log in
      (del, NgSession.udp_session s', log')
  check_session (NgSession.tcp_session s) sessions maxsessions log =
      let (del, s', log') = check_tcp_session os s sessions maxsessions log in
      (del, NgSession.tcp_session s', log')

  -- The pass over all sessions at the time `now`: those that stay, the time to wait for events, and
  -- the log.
  unfoldable pub sweep : ℕ → ℕ → ℕ → List NgSession → ℕ → List Call → List NgSession × ℕ × List Call
  sweep sessions maxsessions now [] timeout log = ([], timeout, log)
  sweep sessions maxsessions now (s ∷ rest) timeout log =
      let checked = check_session s sessions maxsessions log in
      let dropped = sweep sessions maxsessions now rest timeout checked.2 in
      let kept =
        sweep sessions maxsessions now rest (wait_for checked.1 sessions maxsessions now timeout)
          checked.2 in
      if checked.0 then dropped else (checked.1 ∷ kept.0, kept.1, kept.2)

  -- TCP sessions with a socket are watched; the answer is whether to look again soon.
  unfoldable pub monitor_all : List NgSession → List Call → Bool × List NgSession × List Call
  monitor_all [] log = (false, [], log)
  monitor_all (NgSession.icmp_session s ∷ rest) log =
      let (again, rest', log') = monitor_all rest log in
      (again, NgSession.icmp_session s ∷ rest', log')
  monitor_all (NgSession.udp_session s ∷ rest) log =
      let (again, rest', log') = monitor_all rest log in
      (again, NgSession.udp_session s ∷ rest', log')
  monitor_all (NgSession.tcp_session s ∷ rest) log =
      let watched = if has_socket s.socket then monitor_tcp_session os s log else (false, s, log) in
      let (again, rest', log') = monitor_all rest watched.2 in
      (watched.0 || again, NgSession.tcp_session (watched.1) ∷ rest', log')

  -- When the service starts again, the sessions that are left are stopped.
  unfoldable pub check_allowed : List NgSession → List Call → List NgSession × List Call
  check_allowed [] log = ([], log)
  check_allowed (NgSession.icmp_session s ∷ rest) log =
      let (rest', log') = check_allowed rest log in
      (NgSession.icmp_session (record s { icmp = record (s.icmp) { stop = true } }) ∷ rest', log')
  check_allowed (NgSession.udp_session s ∷ rest) log =
      let (rest', log') = check_allowed rest log in
      let s' =
        if in_udp s.state UdpState.udp_active then record s { udp = finishing s.udp } else s in
      if in_udp s.state UdpState.udp_blocked
      then (rest', log')
      else (NgSession.udp_session s' ∷ rest', log')
  check_allowed (NgSession.tcp_session s ∷ rest) log =
      let (cur, reset_log) = if is_closed s.state then (s.tcp, log) else write_rst os s.tcp log in
      let (rest', log') = check_allowed rest reset_log in
      (NgSession.tcp_session (record s { tcp = cur }) ∷ rest', log')

abbrev pub session_socket : NgSession → Option ℕ
session_socket (NgSession.icmp_session s) = s.socket
session_socket (NgSession.udp_session s) = s.socket
session_socket (NgSession.tcp_session s) = s.socket

-- All sessions are freed and their sockets closed.
unfoldable pub clear : List NgSession → List Call → List NgSession × List Call
clear [] log = ([], log)
clear (s ∷ rest) log = clear rest (close_socket (session_socket s) log)
