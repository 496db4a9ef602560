-- ===== src/Loop/Events.antt =====
-- android_app/app/src/main/cpp/session.c: `handle_events`, the function of the native thread. `fuel`
-- and `beyond` are those of the handlers; `rounds` bounds a loop that the environment may keep going
-- for ever. `junk` is what `malloc` returns for the buffer of a packet.
pub mod Serves
pub mod Refines
pub mod Wait
use tun2http.Prelude.{
  ℕ, zero, suc, ◌+◌, ◌*◌, Bool, true, false, not, ◌&&◌, ◌||◌, Option, none, some, List, [], ◌∷◌,
  ◌==◌, ltb, if◌then◌else◌, length,
}
use tun2http.Os.{
  Os, Call, Events, Ready, pipe_ready, tun_ready, session_ready, Polled, interrupted, wait_failed,
  ready,
}
use tun2http.Session.{UdpNode, NgSession, Handled, handled, hung}
use tun2http.Tcp.Socket.{check_tcp_socket}
use tun2http.Tcp.Check.{epoll_min_check}
use tun2http.Udp.Check.{check_udp_socket}
use tun2http.Icmp.Socket.{check_icmp_socket}
use tun2http.Ip.Handle.{Settings, check_tun}
use tun2http.Loop.{epoll_timeout, count_sessions, monitor_all, sweep, check_allowed}

-- What the handling of the events of one wait comes to.
pub data Dispatched : Type 0 where
  goes_on : List NgSession → List Call → Dispatched
  -- The thread is asked to stop, or reading the tun device failed.
  leaves : List NgSession → List Call → Dispatched
  lost : Dispatched

-- What a round leaves when it begins to wait: `count` sessions, the milliseconds to wait, the time
-- of the last check.
pub record Waiting : Type 0 where
  pub sessions : List NgSession
  pub count : ℕ
  pub wait : ℕ
  pub last_check : ℕ
  pub log : List Call

abbrev pub onto : NgSession → Handled → Handled
onto s (handled sessions log) = handled (s ∷ sessions) log
onto s hung = hung

abbrev pub served_udp : Option (UdpNode × List Call) → Option (NgSession × List Call)
served_udp none = none
served_udp (some (s, log)) = some (NgSession.udp_session s, log)

abbrev pub served_at : Option (NgSession × List Call) → List NgSession → Handled
served_at none rest = hung
served_at (some (s, log)) rest = handled (s ∷ rest) log

-- The thread ends: the epoll file, if there is one, is closed.
abbrev pub detached : Bool → Handled → Handled
detached opened (handled sessions log) =
    handled sessions (Call.detach ∷ (if opened then Call.epoll_close ∷ log else log))
detached opened hung = hung

module _ (os : Os) (patch : List ℕ → Option (List ℕ)) (inet_ntoa : List ℕ → List ℕ) (fuel : ℕ)
    (beyond : ℕ → ℕ) (args : Settings) (junk : List Call → List ℕ) where
  -- `while (!error && is_readable(args->tun))`, with the error.
  unfoldable pub tun_loop : ℕ → Events → ℕ → List NgSession → List Call → Bool × Handled
  tun_loop zero ev count sessions log = (false, hung)
  tun_loop (suc rounds) ev count sessions log =
      let log' : List Call = Call.tun_poll ∷ log in
      let read : Bool × Handled =
        check_tun os inet_ntoa fuel beyond args (junk log') ev count sessions log' in
      elim (os.tun_readable log) [
        | false ↦ (false, handled sessions log')
        | true ↦ elim read.1 [
          | hung ↦ (false, hung)
          | handled sessions' log'' ↦ elim read.0 [
            | true ↦ (true, handled sessions' log'')
            | false ↦ tun_loop rounds ev count sessions' log''
          ]
        ]
      ]

  -- A UDP socket is read as long as there is something to read, unless an error is reported.
  unfoldable pub udp_loop : ℕ → UdpNode → Events → List Call → Option (UdpNode × List Call)
  udp_loop zero s ev log = none
  udp_loop (suc rounds) s ev log =
      let log' : List Call = Call.poll s.socket ∷ log in
      elim (not ev.epollerr && ev.epollin) [
        | false ↦ some (s, log)
        | true ↦ elim (os.readable log s.socket) [
          | false ↦ some (s, log')
          | true ↦ elim (check_udp_socket os fuel beyond s ev log') [
            | none ↦ none
            | some (s', log'') ↦ udp_loop rounds s' ev log''
          ]
        ]
      ]

  unfoldable pub serve_session : ℕ → NgSession → Events → List Call → Option (NgSession × List Call)
  serve_session rounds (NgSession.icmp_session s) ev log =
      let (s', log') = check_icmp_socket os s ev log in some (NgSession.icmp_session s', log')
  serve_session rounds (NgSession.udp_session s) ev log = served_udp (udp_loop rounds s ev log)
  serve_session rounds (NgSession.tcp_session s) ev log =
      let (s', log') = check_tcp_socket os patch s ev log in some (NgSession.tcp_session s', log')

  -- The session with `behind` sessions behind it. A pointer to none of the list would dangle.
  unfoldable pub serve_at : ℕ → ℕ → Events → List NgSession → List Call → Handled
  serve_at rounds behind ev [] log = hung
  serve_at rounds behind ev (s ∷ rest) log =
      if length rest == behind
      then served_at (serve_session rounds s ev log) rest
      else onto s (serve_at rounds behind ev rest log)

  -- The loop over the events of one wait.
  unfoldable pub dispatch : ℕ → List Ready → ℕ → List NgSession → List Call → Dispatched
  dispatch rounds [] count sessions log = goes_on sessions log
  dispatch rounds (pipe_ready ∷ events) count sessions log = leaves sessions (Call.read_pipe ∷ log)
  dispatch rounds (tun_ready ev ∷ events) count sessions log =
      let read : Bool × Handled = tun_loop rounds ev count sessions log in
      elim read.1 [
        | hung ↦ lost
        | handled sessions' log' ↦ elim read.0 [
          | true ↦ leaves sessions' log'
          | false ↦ dispatch rounds events count sessions' log'
        ]
      ]
  dispatch rounds (session_ready behind ev ∷ events) count sessions log =
      elim (serve_at rounds behind ev sessions log) [
        | hung ↦ lost
        | handled sessions' log' ↦ dispatch rounds events count sessions' log'
      ]

  -- A round up to its wait. The sessions are checked at most every 100 milliseconds; where they are
  -- not, or a session wants to be looked at soon, the wait is as short.
  unfoldable pub before_wait : ℕ → List NgSession → List Call → Waiting
  before_wait last_check sessions log =
      let count : ℕ = count_sessions sessions in
      let (recheck, watched, log') = monitor_all os sessions log in
      let ms : ℕ = os.get_ms log' in
      let timed : List Call = Call.get_ms ∷ log' in
      let swept =
        sweep os count args.maxsessions (os.time timed) watched epoll_timeout (Call.time ∷ timed) in
      if ltb (last_check + epoll_min_check) ms
      then record {
        sessions = swept.0;
        count = count;
        wait = if recheck then epoll_min_check else swept.1 * 1000;
        last_check = ms;
        log = swept.2;
      }
      else record {
        sessions = watched;
        count = count;
        wait = epoll_min_check;
        last_check = last_check;
        log = timed;
      }

  -- `while (!stopping)`
  unfoldable pub event_loop : ℕ → ℕ → List NgSession → List Call → Handled
  event_loop zero last_check sessions log = hung
  event_loop (suc rounds) last_check sessions log =
      let w : Waiting = before_wait last_check sessions log in
      let log' : List Call = Call.epoll_wait w.wait ∷ w.log in
      elim (os.epoll_wait w.log w.wait) [
        | interrupted ↦ event_loop rounds w.last_check w.sessions log'
        | wait_failed ↦ handled w.sessions log'
        | ready events ↦ elim (dispatch rounds events w.count w.sessions log') [
          | goes_on sessions' log'' ↦ event_loop rounds w.last_check sessions' log''
          | leaves sessions' log'' ↦ handled sessions' log''
          | lost ↦ hung
        ]
      ]

  -- The thread, from the sessions that stand in the list.
  unfoldable pub handle_events : ℕ → List NgSession → List Call → Handled
  handle_events rounds sessions log =
      let attached : List Call = Call.attach ∷ log in
      let (allowed, log') = check_allowed os sessions attached in
      let log1 : List Call = Call.epoll_create ∷ log' in
      let log2 : List Call = Call.epoll_pipe ∷ log1 in
      let log3 : List Call = Call.epoll_tun ∷ log2 in
      if os.setup_fails log
      then handled sessions attached
      else if os.setup_fails log' || os.setup_fails log1 || os.setup_fails log2
      then detached (not (os.setup_fails log')) (handled allowed log3)
      else detached true (event_loop rounds 0 allowed log3)
