-- ===== src/Loop/Events/Refines.antt =====
-- `handle_events` does nothing to the list of sessions but the steps of its life.
use tun2http.Prelude.{
  ℕ, zero, suc, ◌+◌, ◌≡◌, refl, subst, ◌⊎◌, Bool, true, ◌||◌, Option, List, [], ◌∷◌, ltb,
  Bool-cases, inl, inr,
}
use tun2http.Os.{
  Os, Call, Ready, pipe_ready, tun_ready, session_ready, Polled, interrupted, wait_failed, ready,
}
use tun2http.Session.{NgSession, Handled, handled, hung}
use tun2http.Session.Leaves.{Leaves, Handled-cases}
use tun2http.Ip.Handle.{Settings}
use tun2http.Tcp.Check.{epoll_min_check}
use tun2http.Loop.{monitor_all, check_allowed}
use tun2http.Loop.Life.{monitor, check, restart, LoopRuns, start, step}
use tun2http.Loop.Events.Serves.{Reachable, tun_loop-Reachable, serve_at-Reachable}
use tun2http.Loop.Events.{
  Dispatched, goes_on, leaves, lost, Waiting, tun_loop, serve_at, dispatch, before_wait, event_loop,
  handle_events, detached,
}

-- The list that the events of one wait leave.
abbrev Settles : (List NgSession → Type 0) → Dispatched → Type 0
Settles P (goes_on sessions log) = P sessions
Settles P (leaves sessions log) = P sessions
Settles P lost = Unit {0}

Dispatched-cases :
    (d : Dispatched)
    → ((sessions : List NgSession) × (log : List Call) × (d ≡ goes_on sessions log))
      ⊎ ((sessions : List NgSession) × (log : List Call) × (d ≡ leaves sessions log))
      ⊎ (d ≡ lost)
Dispatched-cases (goes_on sessions log) = inl (sessions, log, refl)
Dispatched-cases (leaves sessions log) = inr (inl (sessions, log, refl))
Dispatched-cases lost = inr (inr refl)

Polled-cases :
    (p : Polled)
    → (p ≡ interrupted) ⊎ (p ≡ wait_failed) ⊎ ((events : List Ready) × (p ≡ ready events))
Polled-cases interrupted = inl refl
Polled-cases wait_failed = inr (inl refl)
Polled-cases (ready events) = inr (inr (events, refl))

detached-Leaves :
    (P : List NgSession → Type 0) (opened : Bool) (h : Handled)
    → Leaves P h
    → Leaves P (detached opened h)
detached-Leaves P opened (handled sessions log) r = r
detached-Leaves P opened hung r = tt

module _ (os : Os) (patch : List ℕ → Option (List ℕ)) (inet_ntoa : List ℕ → List ℕ) (fuel : ℕ)
    (beyond : ℕ → ℕ) (args : Settings) (junk : List Call → List ℕ) (first : List NgSession) where
  dispatch-Reachable :
      (rounds : ℕ) (events : List Ready) (count : ℕ) (sessions : List NgSession) (log : List Call)
      → (Reachable os patch inet_ntoa fuel beyond args junk first) sessions
      → Settles
          (Reachable os patch inet_ntoa fuel beyond args junk first)
          (dispatch os patch inet_ntoa fuel beyond args junk rounds events count sessions log)
  unfolding dispatch
  dispatch-Reachable rounds [] count sessions log r = r
  dispatch-Reachable rounds (pipe_ready ∷ events) count sessions log r = r
  dispatch-Reachable rounds (tun_ready ev ∷ events) count sessions log r =
      let read : Bool × Handled =
        tun_loop os patch inet_ntoa fuel beyond args junk rounds ev count sessions log in
      let read_r : Leaves (Reachable os patch inet_ntoa fuel beyond args junk first) read.1 =
        tun_loop-Reachable os patch inet_ntoa fuel beyond args junk first rounds ev count sessions
          log r in
      elim (Handled-cases read.1) [
        | inr gone ↦ rw (gone, dispatch) tt
        | inl (sessions', log', e) ↦
            let r' : (Reachable os patch inet_ntoa fuel beyond args junk first) sessions' =
              subst (Leaves (Reachable os patch inet_ntoa fuel beyond args junk first)) e read_r in
            elim (Bool-cases read.0) [
              | inl failed ↦ rw (e, failed, dispatch) r'
              | inr fine ↦
                  rw (e, fine, dispatch) (dispatch-Reachable rounds events count sessions' log' r')
            ]
      ]
  dispatch-Reachable rounds (session_ready behind ev ∷ events) count sessions log r =
      let served : Handled =
        serve_at os patch inet_ntoa fuel beyond args junk rounds behind ev sessions log in
      let served_r : Leaves (Reachable os patch inet_ntoa fuel beyond args junk first) served =
        serve_at-Reachable os patch inet_ntoa fuel beyond args junk first rounds behind ev []
          sessions log r in
      elim (Handled-cases served) [
        | inr gone ↦ rw (gone, dispatch) tt
        | inl (sessions', log', e) ↦
            let r' : (Reachable os patch inet_ntoa fuel beyond args junk first) sessions' =
              subst (Leaves (Reachable os patch inet_ntoa fuel beyond args junk first)) e
                served_r in
            rw (e, dispatch) (dispatch-Reachable rounds events count sessions' log' r')
      ]

  before_wait-Reachable :
      (last_check : ℕ) (sessions : List NgSession) (log : List Call)
      → (Reachable os patch inet_ntoa fuel beyond args junk first) sessions
      → (Reachable os patch inet_ntoa fuel beyond args junk first)
          (before_wait os patch inet_ntoa fuel beyond args junk last_check sessions log).sessions
  unfolding before_wait
  before_wait-Reachable last_check sessions log r =
      let watched : (Reachable os patch inet_ntoa fuel beyond args junk first)
          (monitor_all os sessions log).1 =
        step sessions _ log r monitor in
      let (again, _, log') = monitor_all os sessions log in
      elim (Bool-cases (ltb (last_check + epoll_min_check) (os.get_ms log'))) [
        | inl due ↦ rw due (step _ _ _ watched (check _ _ _ _))
        | inr early ↦ rw early watched
      ]

  event_loop-Reachable :
      (rounds last_check : ℕ) (sessions : List NgSession) (log : List Call)
      → (Reachable os patch inet_ntoa fuel beyond args junk first) sessions
      → Leaves
          (Reachable os patch inet_ntoa fuel beyond args junk first)
          (event_loop os patch inet_ntoa fuel beyond args junk rounds last_check sessions log)
  unfolding event_loop
  event_loop-Reachable zero last_check sessions log r = tt
  event_loop-Reachable (suc rounds) last_check sessions log r =
      let w : Waiting =
        before_wait os patch inet_ntoa fuel beyond args junk last_check sessions log in
      let log' : List Call = Call.epoll_wait w.wait ∷ w.log in
      let r' : (Reachable os patch inet_ntoa fuel beyond args junk first) w.sessions =
        before_wait-Reachable last_check sessions log r in
      elim (Polled-cases (os.epoll_wait w.log w.wait)) [
        | inl e ↦ rw (e, event_loop) (event_loop-Reachable rounds w.last_check w.sessions log' r')
        | inr (inl e) ↦ rw (e, event_loop) r'
        | inr (inr (events, e)) ↦
            let d : Dispatched =
              dispatch os patch inet_ntoa fuel beyond args junk rounds events w.count w.sessions
                log' in
            let d_r : Settles (Reachable os patch inet_ntoa fuel beyond args junk first) d =
              dispatch-Reachable rounds events w.count w.sessions log' r' in
            elim (Dispatched-cases d) [
              | inl (sessions', log'', k) ↦
                  rw (e, k, event_loop)
                    (event_loop-Reachable rounds w.last_check sessions' log'' (
                      subst (Settles (Reachable os patch inet_ntoa fuel beyond args junk first)) k
                        d_r))
              | inr (inl (sessions', log'', k)) ↦
                  rw (e, k, event_loop)
                    (subst (Settles (Reachable os patch inet_ntoa fuel beyond args junk first)) k
                      d_r)
              | inr (inr k) ↦ rw (e, k, event_loop) tt
            ]
      ]

  handle_events-Reachable :
      (rounds : ℕ) (sessions : List NgSession) (log : List Call)
      → LoopRuns os patch inet_ntoa fuel beyond args first sessions
      → Leaves
          (LoopRuns os patch inet_ntoa fuel beyond args first)
          (handle_events os patch inet_ntoa fuel beyond args junk rounds sessions log)
  unfolding handle_events
  handle_events-Reachable rounds sessions log r =
      let attached : List Call = Call.attach ∷ log in
      let allowed : (Reachable os patch inet_ntoa fuel beyond args junk first)
          (check_allowed os sessions attached).0 =
        step sessions _ attached r restart in
      let log' : List Call = (check_allowed os sessions attached).1 in
      let log1 : List Call = Call.epoll_create ∷ log' in
      let log2 : List Call = Call.epoll_pipe ∷ log1 in
      elim (Bool-cases (os.setup_fails log)) [
        | inl apart ↦ rw apart r
        | inr apart ↦
            elim (Bool-cases (os.setup_fails log' || os.setup_fails log1 || os.setup_fails log2)) [
              | inl fails ↦ rw (apart, fails) allowed
              | inr set ↦
                  rw (apart, set)
                    (detached-Leaves (Reachable os patch inet_ntoa fuel beyond args junk first) true
                      _ (event_loop-Reachable rounds 0 _ (Call.epoll_tun ∷ log2) allowed))
            ]
      ]

-- The thread, whatever the environment answers and whatever packets and events come in, does nothing
-- to the list of sessions but steps of its life: where it ends, the list that it leaves comes of the
-- list that it began with by such steps.
pub handle_events-LoopRuns :
    (os : Os) (patch : List ℕ → Option (List ℕ)) (inet_ntoa : List ℕ → List ℕ) (fuel : ℕ)
    (beyond : ℕ → ℕ) (args : Settings) (junk : List Call → List ℕ) (rounds : ℕ)
    (sessions : List NgSession) (log : List Call)
    → Leaves
        (LoopRuns os patch inet_ntoa fuel beyond args sessions)
        (handle_events os patch inet_ntoa fuel beyond args junk rounds sessions log)
handle_events-LoopRuns os patch inet_ntoa fuel beyond args junk rounds sessions log =
    handle_events-Reachable os patch inet_ntoa fuel beyond args junk sessions rounds sessions log
      start
