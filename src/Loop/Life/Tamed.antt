-- ===== src/Loop/Life/Tamed.antt =====
-- What a step may leave of a list so that it stays in shape.
use tun2http.Prelude.{ℕ, ◌≤◌, ◌≡◌, true, List, [], ◌∷◌, arith}
use tun2http.Session.{UdpSession, TcpNode, UdpNode, NgSession, has_socket}
use tun2http.Tcp.Header.{TcpPacket}
use tun2http.Tcp.Handle.{matches_tcp}
use tun2http.Tcp.Handle.Keys.{key}
use tun2http.Tcp.Handle.Unique.{serving}
use tun2http.Udp.Check.Life.{IsUdpSound}
use tun2http.Udp.Handle.{UdpPacket, matches_udp}
use tun2http.Udp.Handle.Unique.{udp_serving, AllUdp}
use tun2http.Icmp.Handle.{IcmpPacket, matches_icmp}
use tun2http.Icmp.Handle.Kept.{icmp_serving, AllIcmp}
use tun2http.Ip.Shape.{InShape}

-- What identifies a UDP session.
abbrev pub udp_key : UdpSession → ℕ × ℕ × ℕ × List ℕ × List ℕ
udp_key cur = (cur.version, cur.source, cur.dest, cur.saddr, cur.daddr)

-- A session as a step leaves it: a packet finds it only where it found it before.
abbrev pub Tame : NgSession → NgSession → Type 0
Tame (NgSession.tcp_session s) (NgSession.tcp_session t) = key t.tcp ≡ key s.tcp
Tame (NgSession.udp_session s) (NgSession.udp_session t) =
    (udp_key t.udp ≡ udp_key s.udp) × (IsUdpSound s → IsUdpSound t)
Tame (NgSession.icmp_session s) (NgSession.icmp_session t) =
    ((q : IcmpPacket) → matches_icmp q t.icmp ≡ true → matches_icmp q s.icmp ≡ true)
    × (has_socket s.socket ≡ true → has_socket t.socket ≡ true)
Tame s t = ⊥

-- A list of which each session is left tame or deleted.
pub data Tamed : List NgSession → List NgSession → Type 0 where
  none_left : Tamed [] []
  deletes : (s : NgSession) (xs ys : List NgSession) → Tamed xs ys → Tamed (s ∷ xs) ys
  keeps :
      (s t : NgSession) (xs ys : List NgSession) → Tame s t → Tamed xs ys → Tamed (s ∷ xs) (t ∷ ys)

-- What the counts and sockets of a list are bounded by.
pub record Below (before after : List NgSession) : Type 0 where
  tcp_below : (q : TcpPacket) → serving q after ≤ serving q before
  udp_below : (q : UdpPacket) → udp_serving q after ≤ udp_serving q before
  icmp_below : (q : IcmpPacket) → icmp_serving q after ≤ icmp_serving q before
  udp_kept : AllUdp before → AllUdp after
  icmp_kept : AllIcmp before → AllIcmp after

tcp_matches :
    (q : TcpPacket) (s t : TcpNode)
    → key t.tcp ≡ key s.tcp
    → matches_tcp q t.tcp ≡ matches_tcp q s.tcp
unfolding matches_tcp
tcp_matches q s t h = ground (arith, h)

udp_matches :
    (q : UdpPacket) (s t : UdpNode)
    → udp_key t.udp ≡ udp_key s.udp
    → matches_udp q t.udp ≡ matches_udp q s.udp
unfolding matches_udp
udp_matches q s t h = ground (arith, h)

keeps-Below :
    (s t : NgSession) (xs ys : List NgSession) → Tame s t → Below xs ys → Below (s ∷ xs) (t ∷ ys)
keeps-Below (NgSession.tcp_session s) (NgSession.tcp_session t) xs ys h b = record {
  tcp_below = λ q. let l = b.tcp_below q in let e = tcp_matches q s t h in ground arith;
  udp_below = b.udp_below;
  icmp_below = b.icmp_below;
  udp_kept = b.udp_kept;
  icmp_kept = b.icmp_kept;
}
keeps-Below (NgSession.udp_session s) (NgSession.udp_session t) xs ys h b = record {
  tcp_below = b.tcp_below;
  udp_below = λ q. let l = b.udp_below q in let e = udp_matches q s t h.0 in ground arith;
  icmp_below = b.icmp_below;
  udp_kept = λ a. (h.1 a.0, b.udp_kept a.1);
  icmp_kept = b.icmp_kept;
}
keeps-Below (NgSession.icmp_session s) (NgSession.icmp_session t) xs ys h b = record {
  tcp_below = b.tcp_below;
  udp_below = b.udp_below;
  icmp_below = λ q. let l = b.icmp_below q in let e = h.0 q in ground arith;
  udp_kept = b.udp_kept;
  icmp_kept = λ a. (h.1 a.0, b.icmp_kept a.1);
}
keeps-Below (NgSession.tcp_session s) (NgSession.udp_session t) xs ys h b = elim h [ ]
keeps-Below (NgSession.tcp_session s) (NgSession.icmp_session t) xs ys h b = elim h [ ]
keeps-Below (NgSession.udp_session s) (NgSession.tcp_session t) xs ys h b = elim h [ ]
keeps-Below (NgSession.udp_session s) (NgSession.icmp_session t) xs ys h b = elim h [ ]
keeps-Below (NgSession.icmp_session s) (NgSession.tcp_session t) xs ys h b = elim h [ ]
keeps-Below (NgSession.icmp_session s) (NgSession.udp_session t) xs ys h b = elim h [ ]

deletes-Below : (s : NgSession) (xs ys : List NgSession) → Below xs ys → Below (s ∷ xs) ys
deletes-Below (NgSession.tcp_session s) xs ys b = record {
  tcp_below = λ q. let l = b.tcp_below q in ground arith;
  udp_below = b.udp_below;
  icmp_below = b.icmp_below;
  udp_kept = b.udp_kept;
  icmp_kept = b.icmp_kept;
}
deletes-Below (NgSession.udp_session s) xs ys b = record {
  tcp_below = b.tcp_below;
  udp_below = λ q. let l = b.udp_below q in ground arith;
  icmp_below = b.icmp_below;
  udp_kept = λ a. b.udp_kept a.1;
  icmp_kept = b.icmp_kept;
}
deletes-Below (NgSession.icmp_session s) xs ys b = record {
  tcp_below = b.tcp_below;
  udp_below = b.udp_below;
  icmp_below = λ q. let l = b.icmp_below q in ground arith;
  udp_kept = b.udp_kept;
  icmp_kept = λ a. b.icmp_kept a.1;
}

Tamed-Below : (xs ys : List NgSession) → Tamed xs ys → Below xs ys
Tamed-Below xs ys none_left = record {
  tcp_below = λ q. omega arith;
  udp_below = λ q. omega arith;
  icmp_below = λ q. omega arith;
  udp_kept = λ a. a;
  icmp_kept = λ a. a;
}
Tamed-Below xs ys (deletes s xs' ys' h) = deletes-Below s xs' ys' (Tamed-Below xs' ys' h)
Tamed-Below xs ys (keeps s t xs' ys' h r) = keeps-Below s t xs' ys' h (Tamed-Below xs' ys' r)

pub Tamed-InShape : (xs ys : List NgSession) → InShape xs → Tamed xs ys → InShape ys
Tamed-InShape xs ys h t =
    let b = Tamed-Below xs ys t in
    record {
      tcp_unique = λ q. let l = h.tcp_unique q in let l' = b.tcp_below q in omega arith;
      udp_unique = λ q. let l = h.udp_unique q in let l' = b.udp_below q in omega arith;
      icmp_unique = λ q. let l = h.icmp_unique q in let l' = b.icmp_below q in omega arith;
      udp_sound = b.udp_kept h.udp_sound;
      icmp_sockets = b.icmp_kept h.icmp_sockets;
    }
