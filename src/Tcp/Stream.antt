-- ===== src/Tcp/Stream.antt =====
-- What a session's socket has been given, beside the stream that the remote end sends: `stream` are
-- its bytes, of which the first has the sequence number `base`.
pub mod Forward
pub mod Filing
pub mod Progress
pub mod Flows
pub mod Quiet
pub mod Packet
pub mod Handlers
use tun2http.Prelude.{
  ℕ, ◌+◌, ◌≤◌, ◌<◌, ◌^◌, ◌≡◌, Bool, true, false, Option, none, some, List, [], ◌∷◌, ◌++◌, ◌==◌,
  if◌then◌else◌, sub32, length, take, drop,
}
use tun2http.Os.{Os, Call, Sent}
use tun2http.Session.{Segment, TcpSession}

abbrev pub same_socket : Option ℕ → Option ℕ → Bool
same_socket none none = true
same_socket (some a) (some b) = a == b
same_socket a b = false

abbrev pub took : Sent → List ℕ → List ℕ
took (Sent.failed retry) bytes = []
took (Sent.sent n) bytes = take n bytes

-- The bytes that the system has taken for a socket, by a log of calls.
unfoldable pub accepted : Os → Option ℕ → List Call → List ℕ
accepted os socket [] = []
accepted os socket (Call.send to bytes more ∷ log) =
    let before = accepted os socket log in
    if same_socket to socket then before ++ took (os.send log to bytes more) bytes else before
accepted os socket (call ∷ log) = accepted os socket log

-- Sends on the socket do not fail, and take no more than they are given.
abbrev pub IsTaking : Os → Option ℕ → Type 0
IsTaking os socket =
    (log : List Call) (bytes : List ℕ) (more : Bool)
    → (n : ℕ) × (os.send log socket bytes more ≡ Sent.sent n) × (n ≤ length bytes)

-- The place in the stream of a sequence number.
abbrev pub place : ℕ → ℕ → ℕ
place base seq = sub32 seq base

-- A segment that carries what the stream has at its place.
pub record Carries (stream : List ℕ) (base : ℕ) (q : Segment) : Type 0 where
  pub seq_fits : q.seq < 2 ^ 32
  pub within : place base q.seq + q.len ≤ length stream
  pub carried : take q.len q.bytes ≡ take q.len (drop (place base q.seq) stream)
  pub sent_le : q.sent ≤ q.len
  pub len_fits : q.len ≤ length q.bytes

abbrev pub AllCarry : List ℕ → ℕ → List Segment → Type 0
AllCarry stream base [] = Unit {0}
AllCarry stream base (q ∷ rest) = Carries stream base q × AllCarry stream base rest

-- The socket was given `before` and then the stream up to the session's `remote_seq`, and what waits
-- in the queue is of the stream.
pub record Delivers (os : Os) (socket : Option ℕ) (before stream : List ℕ) (base : ℕ)
    (cur : TcpSession) (log : List Call) : Type 0 where
  pub queued : AllCarry stream base cur.forward
  pub remote_fits : cur.remote_seq < 2 ^ 32
  pub reached : place base cur.remote_seq ≤ length stream
  pub given : accepted os socket log ≡ before ++ take (place base cur.remote_seq) stream
