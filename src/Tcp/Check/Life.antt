-- ===== src/Tcp/Check/Life.antt =====
-- The life of a TCP session under the periodic checks.
use tun2http.Prelude.{
  ℕ, ◌+◌, ◌<◌, ◌≡◌, Bool, true, false, none, Option-cases, inl, inr, List, ◌∷◌, arith, ℤ, ltb_ℤ,
  pos, ◌+ℤ◌,
}
use tun2http.Os.{Os, Call}
use tun2http.Os.Closes.{GivenBack, Releases}
use tun2http.Session.{TcpNode, TcpState, in_state}
use tun2http.Tcp.Invariant.{IsSound}
use tun2http.Tcp.Window.{get_tcp_timeout}
use tun2http.Tcp.Write.Reset.{write_rst_lem, write_rst-packet}
use tun2http.Tcp.Check.{expire_tcp, close_tcp, reset_usage, check_tcp_session, is_closed}

state_code-close :
    (state : TcpState) → in_state state TcpState.close ≡ true → state ≡ TcpState.close
state_code-close state h = ground arith

module _ (os : Os) where
  expire_tcp-IsSound :
      (s : TcpNode) (timeout : ℤ) (now : ℕ) (log : List Call)
      → IsSound s
      → IsSound (expire_tcp os s timeout now log).0
  unfolding expire_tcp
  expire_tcp-IsSound s timeout now log h = ground (arith, write_rst_lem os s.tcp log)

  close_tcp-IsSound : (s : TcpNode) (log : List Call) → IsSound s → IsSound (close_tcp os s log).0
  unfolding close_tcp
  close_tcp-IsSound s log h = ground arith

  reset_usage-IsSound : (s : TcpNode) → IsSound s → IsSound (reset_usage s)
  unfolding reset_usage
  reset_usage-IsSound s h = ground arith

  -- The periodic check keeps the invariant.
  pub check_tcp_session-IsSound :
      (s : TcpNode) (sessions maxsessions : ℕ) (log : List Call)
      → IsSound s
      → IsSound (check_tcp_session os s sessions maxsessions log).1
  unfolding check_tcp_session
  check_tcp_session-IsSound s sessions maxsessions log h =
      reset_usage-IsSound _ (close_tcp-IsSound _ _ (expire_tcp-IsSound s _ _ (Call.time ∷ log) h))

  close_tcp_settles :
      (s : TcpNode) (log : List Call)
      → in_state (close_tcp os s log).0.state TcpState.closing ≡ false
  unfolding close_tcp
  close_tcp_settles s log = ground arith

  reset_usage_state : (s : TcpNode) → (reset_usage s).state ≡ s.state
  unfolding reset_usage
  reset_usage_state s = ground arith

  -- Whether the session has been silent for longer than its timeout.
  abbrev pub is_idle : TcpNode → ℕ → ℕ → ℕ → Bool
  is_idle s sessions maxsessions now =
      ltb_ℤ (pos s.time +ℤ get_tcp_timeout s.tcp sessions maxsessions) (pos now)

  module _ (s : TcpNode) (sessions maxsessions : ℕ) (log : List Call) where
    abbrev pub checked : Bool × TcpNode × List Call
    checked = check_tcp_session os s sessions maxsessions log

    -- A session is never left half closed: whatever its state, after the check it is not CLOSING.
    pub check_tcp_session_settles : in_state checked.1.state TcpState.closing ≡ false
    unfolding check_tcp_session
    check_tcp_session_settles =
        let expired : TcpNode × List Call =
          expire_tcp os s (get_tcp_timeout s.tcp sessions maxsessions) (os.time log)
            (Call.time ∷ log) in
        ground (
          arith,
          close_tcp_settles expired.0 expired.1,
          reset_usage_state (close_tcp os expired.0 expired.1).0,
        )

    -- A sound session that the check asks to delete is CLOSE, has no socket, and was last touched more than 300 seconds before.
    pub check_tcp_session_deletes :
        IsSound s
        → checked.0 ≡ true
        → (checked.1.state ≡ TcpState.close)
          × (checked.1.socket ≡ none)
          × (checked.1.time + 300 < os.time log)
    unfolding check_tcp_session
    check_tcp_session_deletes h d =
        let sound : IsSound checked.1 = check_tcp_session-IsSound s sessions maxsessions log h in
        ground (arith, sound.released, state_code-close checked.1.state)

    -- A session that is neither CLOSING nor CLOSE and was silent for longer than its timeout is CLOSE
    -- after one check and has no socket; if it had one, the check has closed that one, once, and no
    -- other, and if not, it has closed none.
    pub check_tcp_session_expires :
        is_closed s.state ≡ false
        → is_idle s sessions maxsessions (os.time log) ≡ true
        → (checked.1.state ≡ TcpState.close)
          × (checked.1.socket ≡ none)
          × GivenBack s.socket log checked.2
    unfolding check_tcp_session expire_tcp close_tcp reset_usage
    check_tcp_session_expires alive idle =
        let reset = write_rst_lem os s.tcp (Call.time ∷ log) in
        let sent = write_rst-packet os s.tcp (Call.time ∷ log) in
        elim (Option-cases s.socket) [
          | inl e ↦ ground (arith, reset, sent, e)
          | inr (k, e) ↦ ground (arith, reset, sent, e)
        ]

    -- A check closes no socket but the session's, and takes that one from it.
    pub check_tcp_session-Releases : Releases s.socket log checked.1.socket checked.2
    unfolding check_tcp_session expire_tcp close_tcp reset_usage
    check_tcp_session-Releases =
        let reset = write_rst_lem os s.tcp (Call.time ∷ log) in
        let sent = write_rst-packet os s.tcp (Call.time ∷ log) in
        elim (Option-cases s.socket) [
          | inl e ↦ ground (arith, reset, sent, e)
          | inr (k, e) ↦ ground (arith, reset, sent, e)
        ]

    -- A session that is open and was not silent for so long is left as it is.
    check_tcp_session_waits :
        is_closed s.state ≡ false
        → is_idle s sessions maxsessions (os.time log) ≡ false
        → checked ≡ (false, s, Call.time ∷ log)
    unfolding check_tcp_session expire_tcp close_tcp reset_usage
    check_tcp_session_waits alive idle = ground arith
