-- ===== src/Udp/Check/Life.antt =====
-- The life of a UDP session under the periodic checks.
use tun2http.Prelude.{
  ℕ, ◌+◌, ◌<◌, ◌≡◌, Bool, true, false, ◌||◌, none, List, ◌∷◌, arith, ltb_ℤ, pos, ◌+ℤ◌,
}
use tun2http.Os.{Os, Call}
use tun2http.Os.Closes.{Releases}
use tun2http.Session.{UdpNode, UdpState, in_udp}
use tun2http.Udp.Check.{get_udp_timeout, check_udp_session, expire_udp, close_udp, reset_udp_usage}

-- A UDP session has no socket once it is closed or where it was blocked.
pub record IsUdpSound (s : UdpNode) : Type 0 where
  pub released :
      in_udp s.state UdpState.udp_closed || in_udp s.state UdpState.udp_blocked ≡ true
      → s.socket ≡ none

-- Whether the session has been silent for longer than its timeout.
abbrev is_udp_idle : UdpNode → ℕ → ℕ → ℕ → Bool
is_udp_idle s sessions maxsessions now =
    ltb_ℤ (pos s.time +ℤ get_udp_timeout s.udp sessions maxsessions) (pos now)

module _ (os : Os) (s : UdpNode) (sessions maxsessions : ℕ) (log : List Call) where
  abbrev udp_checked : Bool × UdpNode × List Call
  udp_checked = check_udp_session os s sessions maxsessions log

  pub check_udp_session-IsSound : IsUdpSound s → IsUdpSound udp_checked.1
  unfolding check_udp_session expire_udp close_udp reset_udp_usage
  check_udp_session-IsSound h = ground arith

  pub check_udp_session_settles : in_udp udp_checked.1.state UdpState.udp_finishing ≡ false
  unfolding check_udp_session expire_udp close_udp reset_udp_usage
  check_udp_session_settles = ground arith

  -- An active UDP session that was silent for longer than its timeout is closed by one check, and
  -- its socket given back.
  check_udp_session_expires :
      in_udp s.state UdpState.udp_active ≡ true
      → is_udp_idle s sessions maxsessions (os.time log) ≡ true
      → (udp_checked.1.state ≡ UdpState.udp_closed) × (udp_checked.1.socket ≡ none)
  unfolding check_udp_session expire_udp close_udp reset_udp_usage
  check_udp_session_expires active idle = ground arith

  -- An active UDP session that was not silent for so long is left as it is.
  check_udp_session_waits :
      in_udp s.state UdpState.udp_active ≡ true
      → is_udp_idle s sessions maxsessions (os.time log) ≡ false
      → udp_checked ≡ (false, s, Call.time ∷ log)
  unfolding check_udp_session expire_udp close_udp reset_udp_usage
  check_udp_session_waits active idle = ground arith

  -- A UDP session that the check asks to delete has no socket, is closed or was blocked, and was
  -- last touched more than 60 seconds before.
  pub check_udp_session_deletes :
      IsUdpSound s
      → udp_checked.0 ≡ true
      → (in_udp udp_checked.1.state UdpState.udp_closed
            || in_udp udp_checked.1.state UdpState.udp_blocked
          ≡ true)
        × (udp_checked.1.socket ≡ none)
        × (udp_checked.1.time + 60 < os.time log)
  unfolding check_udp_session
  check_udp_session_deletes h d =
      let sound : IsUdpSound udp_checked.1 = check_udp_session-IsSound h in
      ground (arith, sound.released)

  -- A check closes no socket but the session's, and takes that one from it.
  pub check_udp_session-Releases : Releases s.socket log udp_checked.1.socket udp_checked.2
  unfolding check_udp_session expire_udp close_udp reset_udp_usage
  check_udp_session-Releases = ground arith
