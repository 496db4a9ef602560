-- ===== src/Icmp/Write.antt =====
-- android_app/app/src/main/cpp/icmp.c: `write_icmp`, and the changes that `handle_icmp` and
-- `check_icmp_socket` make to an echo message: its identifier and its checksum.
pub mod Echo
use tun2http.Prelude.{
  ℕ, ◌+◌, ◌-◌, ◌*◌, ◌/◌, ◌%◌, ◌^◌, Bool, true, false, none, some, List, [], ◌∷◌, ◌++◌, ◌==◌,
  if◌then◌else◌, not16, get_or, set, length,
}
use tun2http.Packet.{proto_icmp, proto_icmp6, pseudo6, ip_packet}
use tun2http.Util.{calc_checksum}
use tun2http.Os.{Os, Call}
use tun2http.Session.{IcmpSession}

-- A `uint16_t` stored in a message, little endian; what falls behind the message is not sent.
abbrev put16 : List ℕ → ℕ → ℕ → List ℕ
put16 bytes at n = set (set bytes at (n % 256)) (at + 1) (n / 256 % 256)

-- `icmp_type` and `icmp_id` of `struct icmp`.
abbrev pub icmp_type : List ℕ → ℕ
icmp_type bytes = get_or bytes 0 0

abbrev pub icmp_id : List ℕ → ℕ
icmp_id bytes = get_or bytes 4 0 + 256 * get_or bytes 5 0

-- The message with another identifier, and its checksum over a sum that stands for the pseudo
-- header.
unfoldable pub readdress : ℕ → List ℕ → ℕ → List ℕ
readdress csum bytes id =
    let message = put16 (put16 bytes 4 id) 2 0 in
    put16 message 2 (not16 (calc_checksum csum message))

-- A `uint32_t` of a little-endian host.
abbrev store32 : ℕ → List ℕ
store32 n = (n % 256) ∷ (n / 256 % 256) ∷ (n / 2 ^ 16 % 256) ∷ (n / 2 ^ 24 % 256) ∷ []

-- The sum of a reply's pseudo header: the length is 40 less than the message's, in the host's order.
unfoldable pub reply_pseudo : IcmpSession → ℕ → ℕ
reply_pseudo cur n =
    if cur.version == 6
    then calc_checksum 0 (
        cur.daddr
        ++ (cur.saddr ++ (store32 ((n + 2 ^ 32 - 40) % 2 ^ 32) ++ (0 ∷ 0 ∷ 0 ∷ proto_icmp6 ∷ []))))
    else 0

abbrev icmp_protocol : ℕ → ℕ
icmp_protocol version = if version == 4 then proto_icmp else proto_icmp6

unfoldable pub icmp_packet : IcmpSession → List ℕ → List ℕ
icmp_packet cur bytes = ip_packet cur.version (icmp_protocol cur.version) cur.saddr cur.daddr bytes

module _ (os : Os) where
  -- Whether the whole packet was written.
  unfoldable pub write_icmp : IcmpSession → List ℕ → List Call → Bool × List Call
  write_icmp cur bytes log =
      let packet = icmp_packet cur bytes in
      (
        elim (os.tun_write log packet) [ none ↦ false | some n ↦ n == length packet ],
        Call.tun_write packet ∷ log,
      )
