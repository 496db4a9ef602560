-- ===== src/Ip.antt =====
-- android_app/app/src/main/cpp/ip.c: `handle_ip`, which finds the protocol and the payload of a
-- packet from the tun device and hands it on. The buffer is the one that `check_tun` allocated, and
-- longer than the packet; a use of memory outside it is a fault. `get_uid` has no effect but log
-- lines.
pub mod Handle
pub mod Extension
pub mod Parts
pub mod Others
pub mod Shape
pub mod Limit
pub mod Check
use tun2http.Prelude.{
  ℕ, zero, suc, ◌+◌, ◌-◌, ◌*◌, ◌/◌, ◌%◌, ◌^◌, Bool, true, false, not, ◌&&◌, ◌||◌, Option, none,
  some, List, ◌==◌, ltb, leb, if◌then◌else◌, u8, u16, get_elem?, get_or, length, take,
}
use tun2http.Packet.{iphdr_size, ip6_hdr_size, proto_icmp, proto_icmp6, proto_tcp, proto_udp}
use tun2http.Util.{calc_checksum}
use tun2http.Tcp.Header.{◌>>=◌, slice, address_at, address_size}
use tun2http.Udp.Handle.{UdpPacket}
use tun2http.Icmp.Handle.{IcmpPacket}

abbrev pub is_lower_layer : ℕ → Bool
is_lower_layer protocol =
    protocol == 0
    || protocol == 60
    || protocol == 43
    || protocol == 44
    || protocol == 51
    || protocol == 50
    || protocol == 135

abbrev pub is_upper_layer : ℕ → Bool
is_upper_layer protocol =
    protocol == proto_tcp
    || protocol == proto_udp
    || protocol == proto_icmp
    || protocol == proto_icmp6

-- Where a packet's payload is: its protocol and its place. `unfinished` is a loop that has not ended
-- within the fuel.
pub data Target : Type 0 where
  target : ℕ → ℕ → Target
  dropped outside unfinished : Target

-- `ip4hdr->frag_off & IP_MF`, on the field as a little-endian host reads it.
abbrev pub is_fragment : List ℕ → Bool
is_fragment buffer = (get_or buffer 6 0 + 256 * get_or buffer 7 0) / 2 ^ 13 % 2 == 1

-- `(ihl - 5) * 4` cut to a byte.
abbrev ip_option_length : List ℕ → ℕ
ip_option_length buffer = u8 (get_or buffer 0 0 % 16 * 4 + 236)

-- The test of the header's checksum, which is made at the lower log levels.
abbrev pub bad_checksum : List ℕ → Bool
bad_checksum buffer = calc_checksum 0 (take iphdr_size buffer) == 0

-- An IPv4 packet of `len` bytes.
unfoldable pub ip4_target : Bool → List ℕ → ℕ → Target
ip4_target checked buffer len =
    if ltb len iphdr_size
      || is_fragment buffer
      || not (get_or buffer 2 0 * 256 + get_or buffer 3 0 == len)
      || checked && bad_checksum buffer
    then dropped
    else target (get_or buffer 9 0) (iphdr_size + ip_option_length buffer)

-- The loop over extension headers, with fuel: `protocol`, and `off`, which is a `uint16_t`.
unfoldable pub skip_extensions : ℕ → List ℕ → ℕ → ℕ → Target
skip_extensions zero buffer protocol off = unfinished
skip_extensions (suc fuel) buffer protocol off = elim (get_elem? buffer off) [
  | none ↦ outside
  | some ip6e_nxt ↦ elim (is_lower_layer ip6e_nxt && not (is_upper_layer protocol)) [
    | false ↦ target protocol off
    | true ↦ elim (get_elem? buffer (off + 1)) [
      | none ↦ outside
      | some ip6e_len ↦ skip_extensions fuel buffer ip6e_nxt (u16 (off + (8 + ip6e_len)))
    ]
  ]
]

-- What follows the loop: without an upper layer the header's own protocol stands.
abbrev pub after_extensions : ℕ → Target → Target
after_extensions ip6_nxt (target protocol off) =
    if is_upper_layer protocol
    then target protocol (ip6_hdr_size + off)
    else target ip6_nxt ip6_hdr_size
after_extensions ip6_nxt dropped = dropped
after_extensions ip6_nxt outside = outside
after_extensions ip6_nxt unfinished = unfinished

-- An IPv6 packet of `len` bytes. An extension takes at least 8 bytes, so the size of the buffer is
-- fuel enough.
unfoldable pub ip6_target : List ℕ → ℕ → Target
ip6_target buffer len =
    let ip6_nxt = get_or buffer 6 0 in
    let skipped = skip_extensions (suc (length buffer)) buffer ip6_nxt ip6_hdr_size in
    if ltb len ip6_hdr_size
    then dropped
    else if is_upper_layer ip6_nxt
    then target ip6_nxt ip6_hdr_size
    else after_extensions ip6_nxt skipped

unfoldable pub ip_target : Bool → List ℕ → ℕ → Target
ip_target checked buffer len =
    let version = get_or buffer 0 0 / 16 in
    if version == 4
    then ip4_target checked buffer len
    else if version == 6
    then ip6_target buffer len
    else dropped

-- `length - (payload - pkt) < size`, in a `size_t`: a payload that starts behind the packet's end is
-- not too short.
abbrev pub is_short : ℕ → ℕ → ℕ → Bool
is_short len at size = leb at len && ltb (len - at) size

-- `length - at` in a `size_t`. Where it wraps, it is larger than any buffer, for 32 bits and more.
abbrev rest_length : ℕ → ℕ → ℕ
rest_length len at = (len + 2 ^ 32 - at) % 2 ^ 32

-- The headers of a UDP packet of `len` bytes in `buffer`, its UDP header at `at`. Where the length of
-- its data wraps it is `none`: the code goes on with a length that is larger than the buffer, which
-- `sendto` refuses.
unfoldable pub udp_view : List ℕ → ℕ → ℕ → Option UdpPacket
unfolding slice
udp_view buffer len at = do
  first ← get_elem? buffer 0
  let version = first / 16
  saddr ← slice buffer (address_at version) (address_size version)
  daddr ← slice buffer (address_at version + address_size version) (address_size version)
  source_hi ← get_elem? buffer at
  source_lo ← get_elem? buffer (at + 1)
  dest_hi ← get_elem? buffer (at + 2)
  dest_lo ← get_elem? buffer (at + 3)
  payload ← slice buffer (at + 8) (rest_length len (at + 8))
  some (record {
    version = version;
    saddr = saddr;
    daddr = daddr;
    source = source_hi + 256 * source_lo;
    dest = dest_hi + 256 * dest_lo;
    payload = payload;
  })

-- The same of an ICMP packet.
unfoldable pub icmp_view : List ℕ → ℕ → ℕ → Option IcmpPacket
unfolding slice
icmp_view buffer len at = do
  first ← get_elem? buffer 0
  let version = first / 16
  saddr ← slice buffer (address_at version) (address_size version)
  daddr ← slice buffer (address_at version + address_size version) (address_size version)
  plen ← slice buffer 4 2
  next_header ← get_elem? buffer 6
  message ← slice buffer at (rest_length len at)
  some (record {
    version = version;
    saddr = saddr;
    daddr = daddr;
    plen = plen;
    next_header = next_header;
    message = message;
  })
