-- ===== src/Loop/Allowed.antt =====
-- Stopping and freeing all sessions.
use tun2http.Prelude.{◌≡◌, refl, List, [], ◌∷◌, arith}
use tun2http.Os.{Os, Call}
use tun2http.Session.{NgSession}
use tun2http.Tcp.Write.{write_rst}
use tun2http.Tcp.Write.Reset.{write_rst_lem}
use tun2http.Tcp.Check.{close_socket}
use tun2http.Loop.{check_allowed, clear, count_sessions, session_socket}

module _ (os : Os) where
  -- After `check_allowed` no session is active any more, whatever they were and whether or not the
  -- resets could be written.
  check_allowed_stops :
      (list : List NgSession) (log : List Call) → count_sessions (check_allowed os list log).0 ≡ 0
  unfolding check_allowed count_sessions
  check_allowed_stops [] log = refl
  check_allowed_stops (NgSession.icmp_session s ∷ rest) log =
      ground (arith, check_allowed_stops rest log)
  check_allowed_stops (NgSession.udp_session s ∷ rest) log =
      ground (arith, check_allowed_stops rest log)
  check_allowed_stops (NgSession.tcp_session s ∷ rest) log = ground (
    arith,
    write_rst_lem os s.tcp log,
    check_allowed_stops rest log,
    check_allowed_stops rest (write_rst os s.tcp log).1,
  )

-- The sockets that are open, in the order of the list.
abbrev pub open_sockets : List NgSession → List Call
open_sockets [] = []
open_sockets (s ∷ rest) = close_socket (session_socket s) (open_sockets rest)

abbrev pub reversed_onto : List Call → List Call → List Call
reversed_onto [] log = log
reversed_onto (c ∷ rest) log = reversed_onto rest (c ∷ log)

-- `clear` leaves no session, and closes every socket that a session had, each once and in order,
-- and nothing else.
pub clear-open_sockets :
    (list : List NgSession) (log : List Call)
    → clear list log ≡ ([], reversed_onto (open_sockets list) log)
unfolding clear
clear-open_sockets [] log = refl
clear-open_sockets (s ∷ rest) log = ground (
  arith,
  clear-open_sockets rest log,
  clear-open_sockets rest (Call.close (session_socket s) ∷ log),
)
