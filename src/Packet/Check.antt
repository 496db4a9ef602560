-- ===== src/Packet/Check.antt =====
-- The IPv4 header as a receiver checks it.
use tun2http.Prelude.{ℕ, ◌<◌, ◌≡◌, List, ◌++◌, length, length-append, ◌==◌, if◌then◌else◌, arith}
use tun2http.Util.{calc_checksum}
use tun2http.Util.Checksum.{IsBytes, IsBytes-append, checksum_verifies}
use tun2http.Packet.{ip4_front, ip4_header}

-- An address of the IP version: its bytes, 4 or 16 of them.
pub record IsAddress (version : ℕ) (addr : List ℕ) : Type 0 where
  pub are_bytes : IsBytes addr
  pub size : length addr ≡ (if version == 4 then 4 else 16)

-- The header checksum that the code stores makes the whole header sum to 0xFFFF.
pub ip4_header_verifies :
    (len protocol : ℕ) (saddr daddr : List ℕ)
    → protocol < 256
    → IsAddress 4 saddr
    → IsAddress 4 daddr
    → calc_checksum 0 (ip4_header len protocol saddr daddr) ≡ 65535
unfolding ip4_header
ip4_header_verifies len protocol saddr daddr hp hs hd =
    checksum_verifies 0 (ip4_front len protocol) (saddr ++ daddr) (omega arith) (omega arith)
      (omega arith) (IsBytes-append saddr daddr hs.are_bytes hd.are_bytes)
      (omega (arith, length-append saddr daddr, hs.size, hd.size))
