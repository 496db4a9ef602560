-- ===== src/Tcp/Queue.antt =====
-- android_app/app/src/main/cpp/tcp.c: `queue_tcp`, which files the data of a segment under its
-- sequence number until it can be forwarded. The list is `tcp_session.forward`.
pub mod Order
pub mod Content
use Prim.Native.Nat.{Ordering}
use tun2http.Prelude.{ℕ, ◌+◌, Bool, List, [], ◌∷◌, ltb, if◌then◌else◌, length}
use tun2http.Util.{compare_u32}
use tun2http.Session.{Segment, TcpSession}

abbrev pub new_segment : ℕ → Bool → List ℕ → Segment
new_segment seq psh bytes = record {
  seq = seq;
  len = length bytes;
  sent = 0;
  psh = psh;
  bytes = bytes;
}

-- A segment that is queued already: a longer one replaces the bytes, and nothing else.
abbrev pub again : Segment → List ℕ → Segment
again s bytes = if ltb s.len (length bytes) then record s { bytes = bytes } else s

-- The walk to the place, and what is done there.
unfoldable pub queue_segment : ℕ → Bool → List ℕ → List Segment → List Segment
queue_segment seq psh bytes [] = new_segment seq psh bytes ∷ []
queue_segment seq psh bytes (s ∷ rest) = elim (compare_u32 s.seq seq) [
  | Ordering.lt ↦ s ∷ queue_segment seq psh bytes rest
  | Ordering.gt ↦ new_segment seq psh bytes ∷ s ∷ rest
  | Ordering.eq ↦ again s bytes ∷ rest
]

-- Data before `remote_seq` was forwarded before.
unfoldable pub queue_tcp : ℕ → Bool → List ℕ → TcpSession → TcpSession
queue_tcp seq psh bytes cur = elim (compare_u32 seq cur.remote_seq) [
  | Ordering.lt ↦ cur
  | _ ↦ record cur { forward = queue_segment seq psh bytes cur.forward }
]
