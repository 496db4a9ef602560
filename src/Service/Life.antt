-- ===== src/Service/Life.antt =====
-- The end of the thread when it is stopped: from the request to the service as it was when loaded.
use tun2http.Prelude.{ℕ, ◌≡◌, List, ◌∷◌}
use tun2http.Os.{Os, Call, Ready, pipe_ready, ready}
use tun2http.Session.Leaves.{Leaves}
use tun2http.Service.{Service}

-- Every wait reports the pipe, before any other event, as it does once the pipe was written to.
abbrev pub ReportsPipe : Os → Type 0
ReportsPipe os =
    (log : List Call) (ms : ℕ)
    → (events : List Ready) × (os.epoll_wait log ms ≡ ready (pipe_ready ∷ events))
