-- ===== src/Tcp/Queue/Content.antt =====
-- What the queue holds: the segments by their sequence numbers, as a dictionary.
use Prim.Native.Nat.{Ordering}
use tun2http.Prelude.{
  ℕ, ◌+◌, ◌≤◌, ◌<◌, ◌^◌, ◌≡◌, refl, Bool, Option, some, none, List, [], ◌∷◌, length, arith,
  if◌then◌else◌, ◌==◌,
}
use tun2http.Util.{compare_u32}
use tun2http.Util.Compare.{int_rank, compare_u32_rank, compare_u32_eq}
use tun2http.Session.{Segment, TcpSession}
use tun2http.Tcp.Queue.{queue_segment, queue_tcp, new_segment, again}
use tun2http.Tcp.Queue.Order.{
  AllSegments, Ordered, RisesIn, queue_segment-AllSegments, queue_segment-Ordered,
}

-- The segment that is queued under a sequence number.
abbrev pub find : ℕ → List Segment → Option Segment
find seq [] = none
find seq (s ∷ rest) = if s.seq == seq then some s else find seq rest

-- What a new segment leaves under its number, given what was there.
abbrev pub merged : ℕ → Bool → List ℕ → Option Segment → Segment
merged seq psh bytes none = new_segment seq psh bytes
merged seq psh bytes (some s) = again s bytes

find_below :
    (lo hi seq : ℕ) (q : List Segment) → int_rank seq < lo → RisesIn lo hi q → find seq q ≡ none
find_below lo hi seq [] l h = refl
find_below lo hi seq (s ∷ rest) l h =
    ground (arith, find_below (int_rank s.seq + 1) hi seq rest (omega arith) h.2)

-- Filing a segment changes what is queued under its own number and nothing else. A number that is
-- new gets the segment; under a number that is there the length, the count of bytes sent and the
-- push flag stay, and the bytes are replaced if the new ones are more.
find-queue_segment :
    (lo hi seq other : ℕ) (psh : Bool) (bytes : List ℕ) (q : List Segment)
    → seq < 2 ^ 32
    → hi ≤ lo + 0x7FFFFFFF
    → lo ≤ int_rank seq
    → int_rank seq < hi
    → AllSegments q
    → RisesIn lo hi q
    → find other (queue_segment seq psh bytes q)
      ≡ (if seq == other then some (merged seq psh bytes (find seq q)) else find other q)
unfolding queue_segment
find-queue_segment lo hi seq other psh bytes [] hs w l u a h = refl
find-queue_segment lo hi seq other psh bytes (s ∷ rest) hs w l u a h = ground (
  arith,
  compare_u32_rank s.seq seq a.0.seq_fits hs (omega arith) (omega arith),
  compare_u32_eq s.seq seq,
  find_below (int_rank s.seq + 1) hi seq rest,
  find-queue_segment (int_rank s.seq + 1) hi seq other psh bytes rest hs (omega arith),
)

-- The invariant of `tcp_session.forward`.
pub record IsQueue (q : List Segment) : Type 0 where
  pub segments : AllSegments q
  pub ordered : Ordered q

-- `queue_tcp` keeps every queued segment within its types and its bytes, and the queue in order,
-- for any segment that arrives.
pub queue_tcp-IsQueue :
    (seq : ℕ) (psh : Bool) (bytes : List ℕ) (cur : TcpSession)
    → seq < 2 ^ 32
    → length bytes < 2 ^ 16
    → IsQueue cur.forward
    → IsQueue (queue_tcp seq psh bytes cur).forward
unfolding queue_tcp
queue_tcp-IsQueue seq psh bytes cur hs hb h = ground (
  arith,
  queue_segment-AllSegments seq psh bytes cur.forward hs hb h.segments,
  queue_segment-Ordered seq psh bytes cur.forward hs h.segments h.ordered,
)

-- What a session has queued after `queue_tcp`: data from before `remote_seq` is dropped, other data
-- is filed under its number, and nothing else of the queue changes. This holds where the number and
-- those of the queue, read as `int`, lie in one window of 0x7FFFFFFF, and the queue rises and its
-- segments fit their types.
pub find-queue_tcp :
    (lo hi seq other : ℕ) (psh : Bool) (bytes : List ℕ) (cur : TcpSession)
    → seq < 2 ^ 32
    → hi ≤ lo + 0x7FFFFFFF
    → lo ≤ int_rank seq
    → int_rank seq < hi
    → AllSegments cur.forward
    → RisesIn lo hi cur.forward
    → find other (queue_tcp seq psh bytes cur).forward ≡ (elim (compare_u32 seq cur.remote_seq) [
      | Ordering.lt ↦ find other cur.forward
      | _ ↦
          if seq == other
          then some (merged seq psh bytes (find seq cur.forward))
          else find other cur.forward
    ])
unfolding queue_tcp
find-queue_tcp lo hi seq other psh bytes cur hs w l u a h =
    ground (arith, find-queue_segment lo hi seq other psh bytes cur.forward hs w l u a h)

-- A retransmission that brings more bytes than the queued segment does not lengthen it: the bytes
-- behind the old length are never sent.
pub queue_segment_longer :
    (lo hi seq : ℕ) (psh : Bool) (bytes : List ℕ) (q : List Segment) (s : Segment)
    → seq < 2 ^ 32
    → hi ≤ lo + 0x7FFFFFFF
    → lo ≤ int_rank seq
    → int_rank seq < hi
    → AllSegments q
    → RisesIn lo hi q
    → find seq q ≡ some s
    → s.len < length bytes
    → find seq (queue_segment seq psh bytes q) ≡ some (record s { bytes = bytes })
queue_segment_longer lo hi seq psh bytes q s hs w l u a h f more =
    ground (arith, find-queue_segment lo hi seq seq psh bytes q hs w l u a h)
