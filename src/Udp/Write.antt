-- ===== src/Udp/Write.antt =====
-- android_app/app/src/main/cpp/udp.c: `write_udp`.
pub mod Packet
use tun2http.Prelude.{
  ℕ, ◌+◌, Bool, true, false, Option, none, some, List, [], ◌∷◌, ◌++◌, ◌==◌, not16, store16, be16,
  length,
}
use tun2http.Packet.{udphdr_size, proto_udp, pseudo_header, ip_packet}
use tun2http.Util.{calc_checksum}
use tun2http.Os.{Os, Call}
use tun2http.Session.{UdpSession}

-- The six bytes before the checksum of `struct udphdr`.
abbrev pub udp_front : UdpSession → ℕ → List ℕ
udp_front cur n = store16 cur.dest ++ (store16 cur.source ++ be16 (udphdr_size + n))

-- The sum over the pseudo header, the header with a zero checksum and the data.
unfoldable pub udp_sum : UdpSession → List ℕ → ℕ
udp_sum cur bytes =
    calc_checksum
      (calc_checksum
        (calc_checksum 0
          (pseudo_header cur.version proto_udp (udphdr_size + length bytes) cur.saddr cur.daddr))
        (udp_front cur (length bytes) ++ store16 0))
      bytes

-- `struct udphdr` and the data.
unfoldable pub udp_segment : UdpSession → List ℕ → List ℕ
udp_segment cur bytes =
    udp_front cur (length bytes) ++ (store16 (not16 (udp_sum cur bytes)) ++ bytes)

unfoldable pub udp_packet : UdpSession → List ℕ → List ℕ
udp_packet cur bytes = ip_packet cur.version proto_udp cur.saddr cur.daddr (udp_segment cur bytes)

module _ (os : Os) where
  -- Whether the whole packet was written.
  unfoldable pub write_udp : UdpSession → List ℕ → List Call → Bool × List Call
  write_udp cur bytes log =
      let packet = udp_packet cur bytes in
      (
        elim (os.tun_write log packet) [ none ↦ false | some n ↦ n == length packet ],
        Call.tun_write packet ∷ log,
      )
