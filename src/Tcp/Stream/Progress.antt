-- ===== src/Tcp/Stream/Progress.antt =====
-- The loop of `check_tcp_socket` sends all that is next in line.
use tun2http.Prelude.{
  ℕ, ◌+◌, ◌-◌, ◌<◌, ◌^◌, ◌≡◌, refl, Bool, true, not, ◌≤◌, Option, some, Option-cases, inl, inr,
  List, [], ◌∷◌, ◌==◌, u32, sub32, length, arith,
}
use tun2http.Os.{Os, Call, Sent}
use tun2http.Session.{Segment, TcpSession}
use tun2http.Tcp.Queue.Order.{IsSegment, AllSegments}
use tun2http.Tcp.Check.{head_ready}
use tun2http.Tcp.Socket.{pending, send_forward, outgoing, count_sent}
use tun2http.Tcp.Socket.Forward.{send_forward_round, sends, taken, length-pending}

-- Sends on the socket take all that they are given.
abbrev pub IsTakingAll : Os → Option ℕ → Type 0
IsTakingAll os socket =
    (log : List Call) (bytes : List ℕ) (more : Bool)
    → os.send log socket bytes more ≡ Sent.sent (length bytes)

-- A rewritten request is not shorter.
abbrev pub Lengthens : (List ℕ → Option (List ℕ)) → Type 0
Lengthens patch = (bytes new : List ℕ) → patch bytes ≡ some new → length bytes ≤ length new

-- The segments follow one another without a gap, the unsent bytes of the first from `remote_seq`.
abbrev pub FollowsFrom : ℕ → List Segment → Type 0
FollowsFrom remote_seq [] = Unit {0}
FollowsFrom remote_seq (q ∷ rest) =
    (u32 (q.seq + q.sent) ≡ remote_seq) × FollowsFrom (u32 (q.seq + q.len)) rest

-- The bytes that wait.
abbrev pub unsent : List Segment → ℕ
unsent [] = 0
unsent (q ∷ rest) = (q.len - q.sent) + unsent rest

module _ (os : Os) (patch : List ℕ → Option (List ℕ)) (socket : Option ℕ)
    (takes_all : IsTakingAll os socket) (lengthens : Lengthens patch) where
  outgoing-longer :
      (cur : TcpSession) (q : Segment) → length (pending q) ≤ length (outgoing os patch cur q)
  unfolding outgoing
  outgoing-longer cur q = elim (Option-cases (patch (pending q))) [
    | inl e ↦ rw e (ground arith)
    | inr (new, e) ↦ let longer = lengthens (pending q) new e in rw e (ground arith)
  ]

  taken-all :
      (cur : TcpSession) (q : Segment) (log : List Call)
      → IsSegment q
      → taken os patch socket cur q log ≡ q.len - q.sent
  taken-all cur q log h =
      rw (takes_all log (outgoing os patch cur q) (not q.psh))
        (omega (arith, outgoing-longer cur q, length-pending q h))

  head_ready-first :
      (q : Segment) (rest : List Segment) (remote_seq size : ℕ)
      → IsSegment q
      → u32 (q.seq + q.sent) ≡ remote_seq
      → q.len - q.sent < size
      → size < 2 ^ 32
      → head_ready (q ∷ rest) remote_seq size ≡ true
  head_ready-first q rest remote_seq size h next room fits = ground arith

  -- Segments without a gap from `remote_seq` on, for which the socket has room and takes all that it
  -- is given, are sent in one run of the loop: the queue is empty and every byte of it is counted.
  -- The segments lie within their bytes and the room fits 32 bits. This holds on any port, where the
  -- rewriting of requests for port 80 shortens none.
  pub send_forward_all :
      (queue : List Segment) (cur : TcpSession) (size : ℕ) (fwd : Bool) (log : List Call)
      → AllSegments queue
      → FollowsFrom cur.remote_seq queue
      → unsent queue < size
      → size < 2 ^ 32
      → let after = send_forward os patch socket queue cur size fwd log in
        (after.1.forward ≡ []) × (after.1.sent ≡ cur.sent + unsent queue)
  send_forward_all [] cur size fwd log h follows room fits =
      unfold send_forward in (refl, omega arith)
  send_forward_all (q ∷ rest) cur size fwd log h follows room fits =
      let n : ℕ = taken os patch socket cur q log in
      let all : n ≡ q.len - q.sent = taken-all cur q log h.0 in
      let whole : (q.len == q.sent + n) ≡ true = let le = h.0.sent_le in ground arith in
      let ready : head_ready (q ∷ rest) cur.remote_seq size ≡ true =
        head_ready-first q rest cur.remote_seq size h.0 follows.0 (omega arith) fits in
      let place : u32 (q.seq + (q.sent + n)) ≡ u32 (q.seq + q.len) = omega (arith, h.0.sent_le) in
      let later =
        send_forward_all rest (count_sent cur q n) (sub32 size n) true
          (sends os patch socket cur q ∷ log) h.1 (rw place follows.1) (omega arith)
          (omega arith) in
      rw (send_forward_round os patch socket q rest cur size fwd log, ready, whole)
        (later.0, omega arith)
