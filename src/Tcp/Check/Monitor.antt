-- ===== src/Tcp/Check/Monitor.antt =====
-- `monitor_tcp_session`: what it leaves alone, and when it asks to be called again.
use tun2http.Prelude.{ℕ, ◌+◌, ◌^◌, ◌<◌, ◌≡◌, List, ◌∷◌, u32, sub32, arith, ◌⊎◌}
use tun2http.Os.{Os, Call}
use tun2http.Session.{TcpSession, TcpNode, TcpState}
use tun2http.Tcp.Invariant.{IsSound}
use tun2http.Tcp.Write.Reset.{write_ack_cases}
use tun2http.Tcp.Check.{probe_window, watch_tcp, set_events, monitor_tcp_session}

module _ (os : Os) where
  step_back : (seq : ℕ) → seq < 2 ^ 32 → u32 (sub32 seq 1 + 1) ≡ seq
  step_back seq h = omega arith

  abbrev probe_of : TcpSession → List Call → TcpSession
  probe_of cur log = record cur {
    last_keep_alive = os.get_ms log;
    remote_seq = sub32 cur.remote_seq 1;
  }

  -- A probe changes when the last one was, and the state where it cannot be written.
  probe_window_lem :
      (cur : TcpSession) (log : List Call)
      → cur.remote_seq < 2 ^ 32
      → let p = (probe_window os cur log).0 in
        (p ≡ record cur { last_keep_alive = p.last_keep_alive; state = p.state })
        × ((p.state ≡ cur.state) ⊎ (p.state ≡ TcpState.closing))
  unfolding probe_window
  probe_window_lem cur log h =
      ground (
        arith,
        step_back cur.remote_seq h,
        write_ack_cases os (probe_of cur log) (Call.get_ms ∷ log),
      )

  watch_tcp_lem :
      (s : TcpNode) (log : List Call)
      → s.remote_seq < 2 ^ 32
      → let p = (watch_tcp os s log).0 in
        (p ≡ record s {
          tcp = record (s.tcp) { last_keep_alive = p.last_keep_alive; state = p.state };
        })
        × ((p.state ≡ s.state) ⊎ (p.state ≡ TcpState.closing))
  unfolding watch_tcp
  watch_tcp_lem s log h = ground (arith, probe_window_lem s.tcp log h)

  -- Monitoring changes what the socket is watched for, the time of the last probe, and the state of
  -- a session where a call fails, which closes. Sequence numbers, queue and socket stay: the step
  -- back of `remote_seq` for the probe is undone on every path.
  pub monitor_tcp_session_lem :
      (s : TcpNode) (log : List Call)
      → s.remote_seq < 2 ^ 32
      → let p = (monitor_tcp_session os s log).1 in
        (p ≡ record s {
          tcp = record (s.tcp) { last_keep_alive = p.last_keep_alive; state = p.state };
          events = p.events;
        })
        × ((p.state ≡ s.state) ⊎ (p.state ≡ TcpState.closing))
  unfolding monitor_tcp_session set_events
  monitor_tcp_session_lem s log h = ground (arith, watch_tcp_lem s log h)

  pub monitor_tcp_session-IsSound :
      (s : TcpNode) (log : List Call) → IsSound s → IsSound (monitor_tcp_session os s log).1
  monitor_tcp_session-IsSound s log h =
      ground (arith, monitor_tcp_session_lem s log h.session.remote_fits)
