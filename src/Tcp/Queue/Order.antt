-- ===== src/Tcp/Queue/Order.antt =====
-- The order of the queue.
use Prim.Native.Nat.{Ordering}
use tun2http.Prelude.{ℕ, ◌+◌, ◌≤◌, ◌<◌, ◌^◌, ◌≡◌, Bool, List, [], ◌∷◌, length, arith}
use tun2http.Util.{compare_u32}
use tun2http.Util.Compare.{int_rank, compare_u32_flip, compare_u32_rank}
use tun2http.Session.{Segment}
use tun2http.Tcp.Queue.{queue_segment, again}

-- What is true of one queued segment: the sequence number and the length fit their types, no more
-- is sent than there is, and the bytes are all there.
pub record IsSegment (s : Segment) : Type 0 where
  pub seq_fits : s.seq < 2 ^ 32
  pub len_fits : s.len < 2 ^ 16
  pub sent_le : s.sent ≤ s.len
  pub bytes_there : s.len ≤ length s.bytes

abbrev pub AllSegments : List Segment → Type 0
AllSegments [] = Unit {0}
AllSegments (s ∷ rest) = IsSegment s × AllSegments rest

-- Each segment compares greater than the one before it, the first one greater than `p`.
abbrev pub OrderedFrom : ℕ → List Segment → Type 0
OrderedFrom p [] = Unit {0}
OrderedFrom p (s ∷ rest) = (compare_u32 s.seq p ≡ Ordering.gt) × OrderedFrom s.seq rest

abbrev pub Ordered : List Segment → Type 0
Ordered [] = Unit {0}
Ordered (s ∷ rest) = OrderedFrom s.seq rest

-- The sequence numbers, read as `int`, strictly rise between two bounds.
abbrev pub RisesIn : ℕ → ℕ → List Segment → Type 0
RisesIn lo hi [] = Unit {0}
RisesIn lo hi (s ∷ rest) =
    (lo ≤ int_rank s.seq) × (int_rank s.seq < hi) × RisesIn (int_rank s.seq + 1) hi rest

again-IsSegment : (s : Segment) (bytes : List ℕ) → IsSegment s → IsSegment (again s bytes)
again-IsSegment s bytes h = ground arith

again_seq : (s : Segment) (bytes : List ℕ) → (again s bytes).seq ≡ s.seq
again_seq s bytes = ground arith

pub queue_segment-AllSegments :
    (seq : ℕ) (psh : Bool) (bytes : List ℕ) (q : List Segment)
    → seq < 2 ^ 32
    → length bytes < 2 ^ 16
    → AllSegments q
    → AllSegments (queue_segment seq psh bytes q)
unfolding queue_segment
queue_segment-AllSegments seq psh bytes [] hs hb h = omega arith
queue_segment-AllSegments seq psh bytes (s ∷ rest) hs hb h =
    ground
      (arith, queue_segment-AllSegments seq psh bytes rest hs hb h.1, again-IsSegment s bytes h.0)

queue_segment-OrderedFrom :
    (p seq : ℕ) (psh : Bool) (bytes : List ℕ) (q : List Segment)
    → seq < 2 ^ 32
    → p < 2 ^ 32
    → AllSegments q
    → compare_u32 p seq ≡ Ordering.lt
    → OrderedFrom p q
    → OrderedFrom p (queue_segment seq psh bytes q)
unfolding queue_segment
queue_segment-OrderedFrom p seq psh bytes [] hs hp a lt h = (compare_u32_flip p seq hp hs lt, tt)
queue_segment-OrderedFrom p seq psh bytes (s ∷ rest) hs hp a lt h = ground (
  arith,
  compare_u32_flip p seq hp hs lt,
  again_seq s bytes,
  queue_segment-OrderedFrom s.seq seq psh bytes rest hs a.0.seq_fits a.1,
)

pub queue_segment-Ordered :
    (seq : ℕ) (psh : Bool) (bytes : List ℕ) (q : List Segment)
    → seq < 2 ^ 32
    → AllSegments q
    → Ordered q
    → Ordered (queue_segment seq psh bytes q)
unfolding queue_segment
queue_segment-Ordered seq psh bytes [] hs a h = tt
queue_segment-Ordered seq psh bytes (s ∷ rest) hs a h = ground (
  arith,
  again_seq s bytes,
  queue_segment-OrderedFrom s.seq seq psh bytes rest hs a.0.seq_fits a.1,
)

-- Inside a window of less than half the number space the queue is sorted: it stays strictly rising
-- whatever order the segments come in.
queue_segment-RisesIn :
    (lo hi seq : ℕ) (psh : Bool) (bytes : List ℕ) (q : List Segment)
    → seq < 2 ^ 32
    → hi ≤ lo + 0x7FFFFFFF
    → lo ≤ int_rank seq
    → int_rank seq < hi
    → AllSegments q
    → RisesIn lo hi q
    → RisesIn lo hi (queue_segment seq psh bytes q)
unfolding queue_segment
queue_segment-RisesIn lo hi seq psh bytes [] hs w l u a h = (l, u, tt)
queue_segment-RisesIn lo hi seq psh bytes (s ∷ rest) hs w l u a h = ground (
  arith,
  compare_u32_rank s.seq seq a.0.seq_fits hs (omega arith) (omega arith),
  again_seq s bytes,
  queue_segment-RisesIn (int_rank s.seq + 1) hi seq psh bytes rest hs (omega arith),
)
