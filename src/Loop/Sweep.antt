-- ===== src/Loop/Sweep.antt =====
-- The pass over all sessions.
use tun2http.Prelude.{
  ℕ, ◌+◌, ◌≤◌, ◌<◌, ◌≡◌, Bool, true, false, none, List, [], ◌∷◌, arith, Bool-cases, inl, inr, not,
  ℤ, pos, negsuc, sub_ℕ, pos_part, neg_part, ◌+ℤ◌,
}
use tun2http.Os.{Os, Call}
use tun2http.Os.Closes.{Releases}
use tun2http.Session.{NgSession, UdpState, in_udp, TcpState, in_state}
use tun2http.Tcp.Invariant.{IsSound}
use tun2http.Tcp.Check.Life.{
  check_tcp_session-IsSound, check_tcp_session-Releases, check_tcp_session_deletes,
  check_tcp_session_settles,
}
use tun2http.Udp.Check.Life.{
  IsUdpSound, check_udp_session-IsSound, check_udp_session-Releases, check_udp_session_deletes,
  check_udp_session_settles,
}
use tun2http.Icmp.{check_icmp_session}
use tun2http.Loop.{
  check_session, sweep, session_socket, wait_for, sooner, session_timeout, last_time,
}

-- The invariant of each kind of session; an ICMP session has none.
abbrev IsSoundSession : NgSession → Type 0
IsSoundSession (NgSession.icmp_session s) = Unit {0}
IsSoundSession (NgSession.udp_session s) = IsUdpSound s
IsSoundSession (NgSession.tcp_session s) = IsSound s

abbrev pub AllSound : List NgSession → Type 0
AllSound [] = Unit {0}
AllSound (s ∷ rest) = IsSoundSession s × AllSound rest

-- A session that is neither in CLOSING nor about to finish.
abbrev is_settled : NgSession → Bool
is_settled (NgSession.icmp_session s) = not s.stop
is_settled (NgSession.udp_session s) = not (in_udp s.state UdpState.udp_finishing)
is_settled (NgSession.tcp_session s) = not (in_state s.state TcpState.closing)

-- What a pass makes of a list and of the log: each session is checked, in order, each check from the
-- log that the one before it left. It stays as a settled one, or leaves without a socket; the check
-- keeps its socket, or takes it from the session and closes it, and closes no other.
pub data Swept (os : Os) (sessions maxsessions : ℕ)
    : List NgSession → List Call → List NgSession → List Call → Type 0 where
  done : (log : List Call) → Swept os sessions maxsessions [] log [] log
  keeps :
      (s : NgSession) (rest rest' : List NgSession) (log log' : List Call)
      → (check_session os s sessions maxsessions log).0 ≡ false
      → is_settled (check_session os s sessions maxsessions log).1 ≡ true
      → Releases
          (session_socket s)
          log
          (session_socket (check_session os s sessions maxsessions log).1)
          (check_session os s sessions maxsessions log).2
      → Swept os sessions maxsessions rest
          (check_session os s sessions maxsessions log).2
          rest'
          log'
      → Swept os sessions maxsessions
          (s ∷ rest)
          log
          ((check_session os s sessions maxsessions log).1 ∷ rest')
          log'
  drops :
      (s : NgSession) (rest rest' : List NgSession) (log log' : List Call)
      → (check_session os s sessions maxsessions log).0 ≡ true
      → session_socket (check_session os s sessions maxsessions log).1 ≡ none
      → Releases
          (session_socket s)
          log
          (session_socket (check_session os s sessions maxsessions log).1)
          (check_session os s sessions maxsessions log).2
      → Swept os sessions maxsessions rest
          (check_session os s sessions maxsessions log).2
          rest'
          log'
      → Swept os sessions maxsessions (s ∷ rest) log rest' log'

module _ (os : Os) (sessions maxsessions : ℕ) where
  check_session-IsSound :
      (s : NgSession) (log : List Call)
      → IsSoundSession s
      → IsSoundSession (check_session os s sessions maxsessions log).1
  unfolding check_session
  check_session-IsSound (NgSession.icmp_session s) log h = ground arith
  check_session-IsSound (NgSession.udp_session s) log h =
      check_udp_session-IsSound os s sessions maxsessions log h
  check_session-IsSound (NgSession.tcp_session s) log h =
      check_tcp_session-IsSound os s sessions maxsessions log h

  check_session_settles :
      (s : NgSession) (log : List Call)
      → (check_session os s sessions maxsessions log).0 ≡ false
      → is_settled (check_session os s sessions maxsessions log).1 ≡ true
  unfolding check_session
  check_session_settles (NgSession.icmp_session s) log k = unfold check_icmp_session in ground arith
  check_session_settles (NgSession.udp_session s) log k =
      ground (arith, check_udp_session_settles os s sessions maxsessions log)
  check_session_settles (NgSession.tcp_session s) log k =
      ground (arith, check_tcp_session_settles os s sessions maxsessions log)

  check_session_releases :
      (s : NgSession) (log : List Call)
      → IsSoundSession s
      → (check_session os s sessions maxsessions log).0 ≡ true
      → session_socket (check_session os s sessions maxsessions log).1 ≡ none
  unfolding check_session
  check_session_releases (NgSession.icmp_session s) log h d =
      unfold check_icmp_session in ground arith
  check_session_releases (NgSession.udp_session s) log h d =
      (check_udp_session_deletes os s sessions maxsessions log h d).1
  check_session_releases (NgSession.tcp_session s) log h d =
      (check_tcp_session_deletes os s sessions maxsessions log h d).1

  check_session-Releases :
      (s : NgSession) (log : List Call)
      → let checked = check_session os s sessions maxsessions log in
        Releases (session_socket s) log (session_socket checked.1) checked.2
  unfolding check_session
  check_session-Releases (NgSession.icmp_session s) log = unfold check_icmp_session in ground arith
  check_session-Releases (NgSession.udp_session s) log =
      check_udp_session-Releases os s sessions maxsessions log
  check_session-Releases (NgSession.tcp_session s) log =
      check_tcp_session-Releases os s sessions maxsessions log

  -- Where every session holds its invariant, by which none that is closed or blocked has a socket, the
  -- pass checks every session once and in order. What stays is what the checks left of the sessions that they did not ask to delete,
  -- with none half closed; what they asked to delete is gone and has no socket. No socket is taken
  -- from a session without being closed, once, and no other socket is closed.
  pub sweep-Swept :
      (now : ℕ) (list : List NgSession) (timeout : ℕ) (log : List Call)
      → AllSound list
      → let left = sweep os sessions maxsessions now list timeout log in
        Swept os sessions maxsessions list log left.0 left.2
  unfolding sweep
  sweep-Swept now [] timeout log h = done log
  sweep-Swept now (s ∷ rest) timeout log h =
      let checked : Bool × NgSession × List Call = check_session os s sessions maxsessions log in
      let released = check_session-Releases s log in
      elim (Bool-cases checked.0) [
        | inl e ↦ rw e (
            drops s rest _ log _ e (check_session_releases s log h.0 e) released
              (sweep-Swept now rest timeout checked.2 h.1))
        | inr e ↦ rw e (
            keeps s rest _ log _ e (check_session_settles s log e) released (
              sweep-Swept now rest (wait_for checked.1 sessions maxsessions now timeout) checked.2
                h.1))
      ]

  sweep-AllSound :
      (now : ℕ) (list : List NgSession) (timeout : ℕ) (log : List Call)
      → AllSound list
      → AllSound (sweep os sessions maxsessions now list timeout log).0
  unfolding sweep
  sweep-AllSound now [] timeout log h = h
  sweep-AllSound now (s ∷ rest) timeout log h =
      let checked : Bool × NgSession × List Call = check_session os s sessions maxsessions log in
      ground (
        arith,
        check_session-IsSound s log h.0,
        sweep-AllSound now rest timeout checked.2 h.1,
        sweep-AllSound now rest (wait_for checked.1 sessions maxsessions now timeout) checked.2 h.1,
      )

  sooner_bounds :
      (d : ℤ) (timeout : ℕ) → 0 < timeout → (0 < sooner d timeout) × (sooner d timeout ≤ timeout)
  sooner_bounds (pos n) timeout h = ground arith
  sooner_bounds (negsuc n) timeout h = ground arith

  wait_for_bounds :
      (s : NgSession) (now timeout : ℕ)
      → 0 < timeout
      → (0 < wait_for s sessions maxsessions now timeout)
        × (wait_for s sessions maxsessions now timeout ≤ timeout)
  unfolding wait_for ◌+ℤ◌
  wait_for_bounds s now timeout h =
      let due : ℤ = pos (last_time s + 1) +ℤ session_timeout s sessions maxsessions in
      ground (arith, sooner_bounds (sub_ℕ (pos_part due) (neg_part due + now)) timeout h)

  -- The time to wait for events is never 0 and never longer than at the start of the pass.
  pub sweep_timeout :
      (now : ℕ) (list : List NgSession) (timeout : ℕ) (log : List Call)
      → 0 < timeout
      → (0 < (sweep os sessions maxsessions now list timeout log).1)
        × ((sweep os sessions maxsessions now list timeout log).1 ≤ timeout)
  unfolding sweep
  sweep_timeout now [] timeout log h = omega arith
  sweep_timeout now (s ∷ rest) timeout log h =
      let checked : Bool × NgSession × List Call = check_session os s sessions maxsessions log in
      ground (
        arith,
        wait_for_bounds checked.1 now timeout h,
        sweep_timeout now rest timeout checked.2 h,
        sweep_timeout now rest (wait_for checked.1 sessions maxsessions now timeout) checked.2,
      )
