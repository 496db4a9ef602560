-- ===== src/Udp/Write/Packet.antt =====
-- The packets of `write_udp` as a receiver checks them.
use tun2http.Prelude.{ℕ, ◌+◌, List, length}
use tun2http.Util.{calc_checksum}
use tun2http.Packet.{proto_udp, pseudo_header}
use tun2http.Packet.Check.{IsAddress}
use tun2http.Session.{UdpSession}

module _ (cur : UdpSession) (hs : IsAddress cur.version cur.saddr)
    (hd : IsAddress cur.version cur.daddr) where
  abbrev pseudo_sum : List ℕ → ℕ
  pseudo_sum bytes =
      calc_checksum 0 (pseudo_header cur.version proto_udp (8 + length bytes) cur.saddr cur.daddr)
