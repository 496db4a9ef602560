-- ===== src/Tcp/Socket/Forward.antt =====
-- The loop of `check_tcp_socket` that sends the queue.
use tun2http.Prelude.{
  ℕ, ◌+◌, ◌-◌, ◌^◌, ◌≤◌, ◌<◌, ◌≡◌, refl, Bool, true, false, not, Option, List, [], ◌∷◌, u32, sub32,
  arith, Bool-cases, inl, inr, ◌==◌, length, drop, min, length-take, length-drop, ltb,
}
use tun2http.Os.{Os, Call, Sent}
use tun2http.Session.{Segment, TcpSession}
use tun2http.Tcp.Queue.Order.{IsSegment, AllSegments, Ordered, OrderedFrom}
use tun2http.Tcp.Check.{head_ready}
use tun2http.Tcp.Socket.{send_forward, outgoing, pending, clamp_sent, count_sent}

-- The bytes handed to the socket lie inside the segment's buffer: exactly the unsent ones.
pub length-pending : (q : Segment) → IsSegment q → length (pending q) ≡ q.len - q.sent
length-pending q h = omega (
  arith,
  length-take (q.len - q.sent) (drop q.sent q.bytes),
  length-drop q.sent q.bytes,
  h.sent_le,
  h.bytes_there,
)

-- The test for a failed send never fires, and no more counts as sent than was asked.
pub clamp_sent_lem : (r : Sent) (len : ℕ) → (n : ℕ) × (clamp_sent r len ≡ Sent.sent n) × (n ≤ len)
unfolding clamp_sent
clamp_sent_lem (Sent.failed retry) len = (len, refl, omega arith)
clamp_sent_lem (Sent.sent n) len = elim (Bool-cases (ltb len n)) [
  | inl e ↦ (len, rw e refl, omega arith)
  | inr e ↦ (n, rw e refl, ground arith)
]

-- What counts as sent of a send of `len` bytes.
abbrev pub counted : Sent → ℕ → ℕ
counted (Sent.failed retry) len = len
counted (Sent.sent n) len = min n len

pub clamp_sent-counted : (r : Sent) (len : ℕ) → clamp_sent r len ≡ Sent.sent (counted r len)
unfolding clamp_sent
clamp_sent-counted (Sent.failed retry) len = refl
clamp_sent-counted (Sent.sent n) len = ground arith

counted-le : (r : Sent) (len : ℕ) → counted r len ≤ len
counted-le (Sent.failed retry) len = omega arith
counted-le (Sent.sent n) len = omega arith

Ordered-tail : (p : ℕ) (q : List Segment) → OrderedFrom p q → Ordered q
Ordered-tail p [] h = tt
Ordered-tail p (s ∷ rest) h = h.1

module _ (os : Os) (patch : List ℕ → Option (List ℕ)) (socket : Option ℕ) where
  -- The call that sends a segment, and the count that it ends with.
  abbrev pub sends : TcpSession → Segment → Call
  sends cur q = Call.send socket (outgoing os patch cur q) (not q.psh)

  abbrev pub taken : TcpSession → Segment → List Call → ℕ
  taken cur q log =
      counted (os.send log socket (outgoing os patch cur q) (not q.psh)) (q.len - q.sent)

  pub taken-le :
      (cur : TcpSession) (q : Segment) (log : List Call) → taken cur q log ≤ q.len - q.sent
  taken-le cur q log =
      counted-le (os.send log socket (outgoing os patch cur q) (not q.psh)) (q.len - q.sent)

  -- One round of the loop, which has no way to fail.
  pub send_forward_round :
      (q : Segment) (rest : List Segment) (cur : TcpSession) (size : ℕ) (fwd : Bool)
      (log : List Call)
      → let n = taken cur q log in
        send_forward os patch socket (q ∷ rest) cur size fwd log
        ≡ (elim (head_ready (q ∷ rest) cur.remote_seq size) [
          | false ↦ (fwd, record cur { forward = q ∷ rest }, log)
          | true ↦ elim (q.len == q.sent + n) [
            | true ↦
                send_forward os patch socket rest
                  (count_sent cur q n)
                  (sub32 size n)
                  true
                  (sends cur q ∷ log)
            | false ↦ (
              true,
              record (count_sent cur q n) { forward = record q { sent = q.sent + n } ∷ rest },
              sends cur q ∷ log,
            )
          ]
        ])
  unfolding send_forward
  send_forward_round q rest cur size fwd log = ground (
    arith,
    clamp_sent-counted (os.send log socket (outgoing os patch cur q) (not q.psh)) (q.len - q.sent),
  )

-- What the loop leaves of a session: the queue in order and every segment within its bytes, the
-- state and `local_seq` as they were, and `remote_seq`, which will be acknowledged, moved by the
-- bytes counted as sent and no others.
pub record IsForwarded (cur next : TcpSession) : Type 0 where
  pub segments : AllSegments next.forward
  pub ordered : Ordered next.forward
  pub same_state : next.state ≡ cur.state
  pub same_local : next.local_seq ≡ cur.local_seq
  pub grows : cur.sent ≤ next.sent
  pub moved : next.remote_seq ≡ u32 (cur.remote_seq + (next.sent - cur.sent))

pub head_ready_seq :
    (q : Segment) (rest : List Segment) (remote_seq size : ℕ)
    → head_ready (q ∷ rest) remote_seq size ≡ true
    → u32 (q.seq + q.sent) ≡ remote_seq
head_ready_seq q rest remote_seq size h = ground arith

partial-IsSegment :
    (q : Segment) (n : ℕ)
    → IsSegment q
    → n ≤ q.len - q.sent
    → IsSegment (record q { sent = q.sent + n })
partial-IsSegment q n h le = record {
  seq_fits = h.seq_fits;
  len_fits = h.len_fits;
  sent_le = omega (arith, h.sent_le);
  bytes_there = h.bytes_there;
}

count_sent-IsForwarded_next :
    (q : Segment) (cur next : TcpSession) (n : ℕ)
    → u32 (q.seq + q.sent) ≡ cur.remote_seq
    → IsForwarded (count_sent cur q n) next
    → IsForwarded cur next
count_sent-IsForwarded_next q cur next n e h = ground arith

count_sent-IsForwarded :
    (q : Segment) (forward : List Segment) (cur : TcpSession) (n : ℕ)
    → AllSegments forward
    → Ordered forward
    → u32 (q.seq + q.sent) ≡ cur.remote_seq
    → IsForwarded cur (record (count_sent cur q n) { forward = forward })
count_sent-IsForwarded q forward cur n a o e = record {
  segments = a;
  ordered = o;
  same_state = refl;
  same_local = refl;
  grows = omega arith;
  moved = omega arith;
}

module _ (os : Os) (patch : List ℕ → Option (List ℕ)) (socket : Option ℕ) where
  -- On a queue that is in order and within its bytes, whatever the sends answer, the loop leaves
  -- such a queue, keeps the state and `local_seq`, and moves `remote_seq` by as many bytes as it
  -- counts as sent.
  pub send_forward-IsForwarded :
      (q : List Segment) (cur : TcpSession) (size : ℕ) (fwd : Bool) (log : List Call)
      → AllSegments q
      → Ordered q
      → cur.remote_seq < 2 ^ 32
      → IsForwarded cur (send_forward os patch socket q cur size fwd log).1
  send_forward-IsForwarded [] cur size fwd log a o h =
      unfold send_forward in
      record {
        segments = tt;
        ordered = tt;
        same_state = refl;
        same_local = refl;
        grows = omega arith;
        moved = omega arith;
      }
  send_forward-IsForwarded (q ∷ rest) cur size fwd log a o h =
      let n : ℕ = taken os patch socket cur q log in
      let le : n ≤ q.len - q.sent = taken-le os patch socket cur q log in
      let next : TcpSession = count_sent cur q n in
      let tail : Ordered rest = Ordered-tail q.seq rest o in
      let round = send_forward_round os patch socket q rest cur size fwd log in
      elim (Bool-cases (head_ready (q ∷ rest) cur.remote_seq size)) [
        | inr e ↦
            rw (round, e)
              (record {
                segments = a;
                ordered = o;
                same_state = refl;
                same_local = refl;
                grows = omega arith;
                moved = omega arith;
              })
        | inl e ↦
            let seq : u32 (q.seq + q.sent) ≡ cur.remote_seq = head_ready_seq q rest _ size e in
            elim (Bool-cases (q.len == q.sent + n)) [
              | inl all ↦
                  rw (round, e, all)
                    (count_sent-IsForwarded_next q cur _ n seq (
                      send_forward-IsForwarded rest next (sub32 size n) true _ a.1 tail
                        (omega arith)))
              | inr part ↦
                  rw (round, e, part)
                    (count_sent-IsForwarded q _ cur n (partial-IsSegment q n a.0 le, a.1) o seq)
            ]
      ]
