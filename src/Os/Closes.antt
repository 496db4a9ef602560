-- ===== src/Os/Closes.antt =====
-- The sockets that a log of calls closes.
use tun2http.Prelude.{ℕ, suc, ◌≡◌, ◌⊎◌, Option, none, some, List, [], ◌∷◌}
use tun2http.Os.{Call}

-- How often the calls of a log close a socket.
abbrev pub closes : List Call → ℕ
closes [] = 0
closes (Call.close socket ∷ log) = suc (closes log)
closes (call ∷ log) = closes log

-- The socket that a log closed last.
abbrev last_closed : List Call → Option (Option ℕ)
last_closed [] = none
last_closed (Call.close socket ∷ log) = some socket
last_closed (call ∷ log) = last_closed log

-- Between two logs a session's socket was closed, once, and no other.
abbrev ClosesOnly : Option ℕ → List Call → List Call → Type 0
ClosesOnly socket log log' = (closes log' ≡ suc (closes log)) × (last_closed log' ≡ some socket)

-- What a check of a session does with its socket, from a log to a log: it keeps it and closes none,
-- or takes it from the session and closes it.
abbrev pub Releases : Option ℕ → List Call → Option ℕ → List Call → Type 0
Releases before log after log' =
    ((after ≡ before) × (closes log' ≡ closes log)) ⊎ ((after ≡ none) × ClosesOnly before log log')

-- Between two logs a session's socket was closed, if it had one, and no other.
abbrev pub GivenBack : Option ℕ → List Call → List Call → Type 0
GivenBack none log log' = closes log' ≡ closes log
GivenBack (some k) log log' = ClosesOnly (some k) log log'
