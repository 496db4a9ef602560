-- ===== src/Sockets/Cases.antt =====
-- What `open_tcp_socket` leaves of a socket that it makes.
use tun2http.Prelude.{ℕ, ◌≡◌, true, Option, some, none, List, ◌∷◌}
use tun2http.Os.{Os, Call, SocketKind, Address}
use tun2http.Os.Closes.{closes}
use tun2http.Os.Closes.{closes}

-- What comes back of a socket for `target`, after the calls of `log`.
abbrev pub IsOpened : Os → ℕ × Address → List Call → Option ℕ × List Call → Type 0
IsOpened os target log (none, log') = closes log' ≡ closes log
IsOpened os target log (some k, log') =
    let created : List Call = Call.socket SocketKind.stream target.0 ∷ log in
    (os.protect created k ≡ true)
    × (log' ≡ Call.connect k target.1 ∷ Call.set_nonblock k ∷ Call.protect k ∷ created)
