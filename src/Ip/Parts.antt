-- ===== src/Ip/Parts.antt =====
-- The sessions of one protocol are those of the list without the sessions of another.
use tun2http.Prelude.{◌+◌, ◌≡◌, refl, ap, true, List, [], ◌∷◌, if◌then◌else◌}
use tun2http.Session.{NgSession}
use tun2http.Tcp.Header.{TcpPacket}
use tun2http.Tcp.Handle.{matches_tcp}
use tun2http.Tcp.Handle.Unique.{serving}
use tun2http.Udp.Check.Life.{IsUdpSound}
use tun2http.Udp.Handle.{UdpPacket, matches_udp}
use tun2http.Udp.Handle.Unique.{udp_serving, AllUdp, others}
use tun2http.Icmp.Handle.{IcmpPacket, matches_icmp}
use tun2http.Icmp.Handle.Kept.{icmp_serving, AllIcmp, not_icmp}
use tun2http.Session.{has_socket}

-- The sessions that are not of TCP.
abbrev pub not_tcp : List NgSession → List NgSession
not_tcp [] = []
not_tcp (NgSession.icmp_session s ∷ rest) = NgSession.icmp_session s ∷ not_tcp rest
not_tcp (NgSession.udp_session s ∷ rest) = NgSession.udp_session s ∷ not_tcp rest
not_tcp (NgSession.tcp_session s ∷ rest) = not_tcp rest

pub udp_serving-not_icmp :
    (q : UdpPacket) (sessions : List NgSession)
    → udp_serving q (not_icmp sessions) ≡ udp_serving q sessions
udp_serving-not_icmp q [] = refl
udp_serving-not_icmp q (NgSession.icmp_session s ∷ rest) = udp_serving-not_icmp q rest
udp_serving-not_icmp q (NgSession.udp_session s ∷ rest) =
    ap (λ n. if matches_udp q s.udp then 1 + n else n) (udp_serving-not_icmp q rest)
udp_serving-not_icmp q (NgSession.tcp_session s ∷ rest) = udp_serving-not_icmp q rest

pub AllUdp-not_icmp : (sessions : List NgSession) → AllUdp (not_icmp sessions) ≡ AllUdp sessions
AllUdp-not_icmp [] = refl
AllUdp-not_icmp (NgSession.icmp_session s ∷ rest) = AllUdp-not_icmp rest
AllUdp-not_icmp (NgSession.udp_session s ∷ rest) = ap (λ t. IsUdpSound s × t) (AllUdp-not_icmp rest)
AllUdp-not_icmp (NgSession.tcp_session s ∷ rest) = AllUdp-not_icmp rest

pub serving-not_icmp :
    (q : TcpPacket) (sessions : List NgSession) → serving q (not_icmp sessions) ≡ serving q sessions
serving-not_icmp q [] = refl
serving-not_icmp q (NgSession.icmp_session s ∷ rest) = serving-not_icmp q rest
serving-not_icmp q (NgSession.udp_session s ∷ rest) = serving-not_icmp q rest
serving-not_icmp q (NgSession.tcp_session s ∷ rest) =
    ap (λ n. if matches_tcp q s.tcp then 1 + n else n) (serving-not_icmp q rest)

pub icmp_serving-others :
    (q : IcmpPacket) (sessions : List NgSession)
    → icmp_serving q (others sessions) ≡ icmp_serving q sessions
icmp_serving-others q [] = refl
icmp_serving-others q (NgSession.icmp_session s ∷ rest) =
    ap (λ n. if matches_icmp q s.icmp then 1 + n else n) (icmp_serving-others q rest)
icmp_serving-others q (NgSession.udp_session s ∷ rest) = icmp_serving-others q rest
icmp_serving-others q (NgSession.tcp_session s ∷ rest) = icmp_serving-others q rest

pub AllIcmp-others : (sessions : List NgSession) → AllIcmp (others sessions) ≡ AllIcmp sessions
AllIcmp-others [] = refl
AllIcmp-others (NgSession.icmp_session s ∷ rest) =
    ap (λ t. (has_socket s.socket ≡ true) × t) (AllIcmp-others rest)
AllIcmp-others (NgSession.udp_session s ∷ rest) = AllIcmp-others rest
AllIcmp-others (NgSession.tcp_session s ∷ rest) = AllIcmp-others rest

pub serving-others :
    (q : TcpPacket) (sessions : List NgSession) → serving q (others sessions) ≡ serving q sessions
serving-others q [] = refl
serving-others q (NgSession.icmp_session s ∷ rest) = serving-others q rest
serving-others q (NgSession.udp_session s ∷ rest) = serving-others q rest
serving-others q (NgSession.tcp_session s ∷ rest) =
    ap (λ n. if matches_tcp q s.tcp then 1 + n else n) (serving-others q rest)

pub icmp_serving-not_tcp :
    (q : IcmpPacket) (sessions : List NgSession)
    → icmp_serving q (not_tcp sessions) ≡ icmp_serving q sessions
icmp_serving-not_tcp q [] = refl
icmp_serving-not_tcp q (NgSession.icmp_session s ∷ rest) =
    ap (λ n. if matches_icmp q s.icmp then 1 + n else n) (icmp_serving-not_tcp q rest)
icmp_serving-not_tcp q (NgSession.udp_session s ∷ rest) = icmp_serving-not_tcp q rest
icmp_serving-not_tcp q (NgSession.tcp_session s ∷ rest) = icmp_serving-not_tcp q rest

pub AllIcmp-not_tcp : (sessions : List NgSession) → AllIcmp (not_tcp sessions) ≡ AllIcmp sessions
AllIcmp-not_tcp [] = refl
AllIcmp-not_tcp (NgSession.icmp_session s ∷ rest) =
    ap (λ t. (has_socket s.socket ≡ true) × t) (AllIcmp-not_tcp rest)
AllIcmp-not_tcp (NgSession.udp_session s ∷ rest) = AllIcmp-not_tcp rest
AllIcmp-not_tcp (NgSession.tcp_session s ∷ rest) = AllIcmp-not_tcp rest

pub udp_serving-not_tcp :
    (q : UdpPacket) (sessions : List NgSession)
    → udp_serving q (not_tcp sessions) ≡ udp_serving q sessions
udp_serving-not_tcp q [] = refl
udp_serving-not_tcp q (NgSession.icmp_session s ∷ rest) = udp_serving-not_tcp q rest
udp_serving-not_tcp q (NgSession.udp_session s ∷ rest) =
    ap (λ n. if matches_udp q s.udp then 1 + n else n) (udp_serving-not_tcp q rest)
udp_serving-not_tcp q (NgSession.tcp_session s ∷ rest) = udp_serving-not_tcp q rest

pub AllUdp-not_tcp : (sessions : List NgSession) → AllUdp (not_tcp sessions) ≡ AllUdp sessions
AllUdp-not_tcp [] = refl
AllUdp-not_tcp (NgSession.icmp_session s ∷ rest) = AllUdp-not_tcp rest
AllUdp-not_tcp (NgSession.udp_session s ∷ rest) = ap (λ t. IsUdpSound s × t) (AllUdp-not_tcp rest)
AllUdp-not_tcp (NgSession.tcp_session s ∷ rest) = AllUdp-not_tcp rest
