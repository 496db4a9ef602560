-- ===== src/Loop/Events/Wait.antt =====
-- How long the thread waits for events.
use tun2http.Prelude.{
  ℕ, ◌+◌, ◌≤◌, ◌<◌, ◌≡◌, ◌⊎◌, inl, inr, ltb, Bool-cases, Option, List, ◌∷◌, arith,
}
use tun2http.Os.{Os, Call}
use tun2http.Session.{NgSession}
use tun2http.Ip.Handle.{Settings}
use tun2http.Loop.{count_sessions, monitor_all, sweep}
use tun2http.Loop.Sweep.{sweep_timeout}
use tun2http.Loop.Events.{Waiting, before_wait}

module _ (os : Os) (patch : List ℕ → Option (List ℕ)) (inet_ntoa : List ℕ → List ℕ) (fuel : ℕ)
    (beyond : ℕ → ℕ) (args : Settings) (junk : List Call → List ℕ) where
  -- In every round the thread waits at least 100 milliseconds and at most an hour for events. Where
  -- more than 100 milliseconds have passed since the last check, the sessions are those that a pass
  -- over the monitored list leaves, and the time of the last check is the present; where not, they
  -- are the monitored ones, no more was called than to monitor them and to read the clock, and the
  -- wait is 100 milliseconds.
  pub before_wait_bounds :
      (last_check : ℕ) (sessions : List NgSession) (log : List Call)
      → let w : Waiting =
          before_wait os patch inet_ntoa fuel beyond args junk last_check sessions log in
        let (recheck, watched, log') = monitor_all os sessions log in
        let timed : List Call = Call.get_ms ∷ log' in
        let swept =
          sweep os
            (count_sessions sessions)
            args.maxsessions
            (os.time timed)
            watched
            3600
            (Call.time ∷ timed) in
        (100 ≤ w.wait)
        × (w.wait ≤ 3600000)
        × ((last_check + 100 < os.get_ms log')
              × (w.last_check ≡ os.get_ms log')
              × (w.sessions ≡ swept.0)
              × (w.log ≡ swept.2)
            ⊎ (os.get_ms log' ≤ last_check + 100)
              × (w.last_check ≡ last_check)
              × (w.sessions ≡ watched)
              × (w.log ≡ timed)
              × (w.wait ≡ 100))
  unfolding before_wait
  before_wait_bounds last_check sessions log =
      let count : ℕ = count_sessions sessions in
      let (recheck, watched, log') = monitor_all os sessions log in
      let timed : List Call = Call.get_ms ∷ log' in
      let bounds =
        sweep_timeout os count args.maxsessions (os.time timed) watched 3600 (Call.time ∷ timed) in
      elim (Bool-cases (ltb (last_check + 100) (os.get_ms log'))) [
        | inl due ↦ ground (arith, bounds)
        | inr early ↦ ground (arith, bounds)
      ]
