-- ===== src/Tests/Loop.antt =====
-- The theorems on UDP sessions and on the list of sessions.
use tun2http.Prelude.{ℕ, List, [], arith}
use tun2http.Os.{Call}
use tun2http.Session.{NgSession}
use tun2http.Loop.{sweep}
use tun2http.Loop.Sweep.{AllSound, Swept, sweep-Swept}
use tun2http.Tests.Data.{os_example, sessions_example}
use tun2http.Tests.Session.{node_example-IsSound, closed_example-IsSound}

sessions_example-AllSound : AllSound sessions_example
sessions_example-AllSound = (
  node_example-IsSound,
  (tt, (record { released = λ h. ground arith }, (closed_example-IsSound, tt))),
)

abbrev swept : List NgSession × ℕ × List Call
swept = sweep os_example 3 100 1000 sessions_example 3600 []

sweep-Swept_example : Swept os_example 3 100 sessions_example [] swept.0 swept.2
sweep-Swept_example =
    sweep-Swept os_example 3 100 1000 sessions_example 3600 [] sessions_example-AllSound
