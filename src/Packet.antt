-- ===== src/Packet.antt =====
-- The IP headers that `write_tcp`, `write_udp` and `write_icmp` build, each with a copy of the same
-- lines: android_app/app/src/main/cpp/tcp.c, udp.c and icmp.c; the default segment size of ip.c.
pub mod Check
pub mod Pseudo
use tun2http.Prelude.{
  ℕ, ◌+◌, ◌-◌, ◌/◌, List, [], ◌∷◌, ◌++◌, ◌==◌, if◌then◌else◌, u16, not16, store16, be16, length,
}
use tun2http.Util.{calc_checksum}

abbrev mtu : ℕ
mtu = 10000

abbrev pub iphdr_size : ℕ
iphdr_size = 20

abbrev pub ip6_hdr_size : ℕ
ip6_hdr_size = 40

abbrev pub tcphdr_size : ℕ
tcphdr_size = 20

abbrev pub udphdr_size : ℕ
udphdr_size = 8

abbrev ip_ttl : ℕ
ip_ttl = 64

abbrev pub proto_icmp : ℕ
proto_icmp = 1

abbrev pub proto_tcp : ℕ
proto_tcp = 6

abbrev pub proto_udp : ℕ
proto_udp = 17

abbrev pub proto_icmp6 : ℕ
proto_icmp6 = 58

unfoldable pub get_default_mss : ℕ → ℕ
get_default_mss version =
    if version == 4
    then u16 (mtu - iphdr_size - tcphdr_size)
    else u16 (mtu - ip6_hdr_size - tcphdr_size)

-- The ten bytes before the header's checksum: version and length, type of service, total length,
-- identification, fragment, time to live, protocol.
abbrev pub ip4_front : ℕ → ℕ → List ℕ
ip4_front len protocol = 0x45 ∷ 0 ∷ (be16 len ++ (0 ∷ 0 ∷ 0 ∷ 0 ∷ ip_ttl ∷ protocol ∷ []))

-- The header with `check` in the checksum's place.
abbrev ip4_with_check : ℕ → ℕ → List ℕ → List ℕ → ℕ → List ℕ
ip4_with_check len protocol saddr daddr check =
    ip4_front len protocol ++ (store16 check ++ (saddr ++ daddr))

-- `struct iphdr` of a packet of `len` bytes, its checksum taken over the header with a zero there.
unfoldable pub ip4_header : ℕ → ℕ → List ℕ → List ℕ → List ℕ
ip4_header len protocol saddr daddr =
    ip4_with_check len protocol saddr daddr
      (not16 (calc_checksum 0 (ip4_with_check len protocol saddr daddr 0)))

-- `struct ip6_hdr` of a packet with `plen` bytes behind the header.
unfoldable pub ip6_header : ℕ → ℕ → List ℕ → List ℕ → List ℕ
ip6_header plen protocol saddr daddr =
    0x60 ∷ 0 ∷ 0 ∷ 0 ∷ (be16 plen ++ (protocol ∷ ip_ttl ∷ (saddr ++ daddr)))

-- `struct ippseudo`.
unfoldable pub pseudo4 : ℕ → ℕ → List ℕ → List ℕ → List ℕ
pseudo4 protocol len saddr daddr = saddr ++ (daddr ++ (0 ∷ protocol ∷ be16 len))

-- `struct ip6_hdr_pseudo`; its 32-bit length is assigned the two bytes of the header's 16-bit one.
unfoldable pub pseudo6 : List ℕ → ℕ → List ℕ → List ℕ → List ℕ
pseudo6 plen protocol saddr daddr =
    saddr ++ (daddr ++ (plen ++ (0 ∷ 0 ∷ 0 ∷ 0 ∷ 0 ∷ protocol ∷ [])))

-- The pseudo header of a packet that goes back to a session's `saddr`: from `daddr`, and for IPv6
-- the two the other way round, which sums to the same.
unfoldable pub pseudo_header : ℕ → ℕ → ℕ → List ℕ → List ℕ → List ℕ
pseudo_header version protocol len saddr daddr =
    if version == 4
    then pseudo4 protocol len daddr saddr
    else pseudo6 (be16 len) protocol saddr daddr

-- The packet behind its IP header: `part` goes back to `saddr`.
unfoldable pub ip_packet : ℕ → ℕ → List ℕ → List ℕ → List ℕ → List ℕ
ip_packet version protocol saddr daddr part =
    if version == 4
    then ip4_header (iphdr_size + length part) protocol daddr saddr ++ part
    else ip6_header (length part) protocol daddr saddr ++ part
