-- ===== src/Tcp/Header.antt =====
-- android_app/app/src/main/cpp/tcp.c: what `handle_tcp` reads of a packet, and the loop over the
-- options of a SYN. The buffer is the one that `check_tun` allocated; a read outside it is a fault.
pub mod Options
use tun2http.Prelude.{
  ℕ, zero, suc, ◌+◌, ◌-◌, ◌*◌, ◌/◌, ◌%◌, ◌^◌, ◌<◌, Bool, true, false, ◌&&◌, Option, none, some,
  List, ◌==◌, ltb, leb, if◌then◌else◌, u8, u16, get_elem?, length, take, drop,
}

infixl 5 ◌>>=◌
abbrev pub ◌>>=◌ {ℓ κ} : {A : Type ℓ} {B : Type κ} → Option A → (A → Option B) → Option B
none >>= k = none
some a >>= k = k a

-- A `uint16_t` and a `uint32_t` in network order, as `ntohs` and `ntohl` give them.
unfoldable read16 : List ℕ → ℕ → Option ℕ
read16 buffer at = do a ← get_elem? buffer at; b ← get_elem? buffer (at + 1); some (a * 256 + b)

unfoldable read32 : List ℕ → ℕ → Option ℕ
unfolding read16
read32 buffer at = do a ← read16 buffer at; b ← read16 buffer (at + 2); some (a * 2 ^ 16 + b)

-- `n` bytes from a place.
unfoldable pub slice : List ℕ → ℕ → ℕ → Option (List ℕ)
slice buffer at n = if leb (at + n) (length buffer) then some (take n (drop at buffer)) else none

-- `struct tcphdr` and the parts of the packet behind it. Ports are in network notation, the other
-- numbers in host notation.
pub record TcpPacket : Type 0 where
  pub version : ℕ
  pub saddr : List ℕ
  pub daddr : List ℕ
  pub source : ℕ
  pub dest : ℕ
  pub seq : ℕ
  pub ack_seq : ℕ
  pub optlen : ℕ
  pub syn : Bool
  pub ack : Bool
  pub psh : Bool
  pub fin : Bool
  pub rst : Bool
  pub urg : Bool
  pub window : ℕ
  -- The buffer from the options on.
  pub options : List ℕ
  -- The data, `datalen` bytes.
  pub payload : List ℕ

-- What the fields of a packet's header hold at most.
pub record FitsPacket (p : TcpPacket) : Type 0 where
  pub seq_fits : p.seq < 2 ^ 32
  pub payload_fits : length p.payload < 2 ^ 16

abbrev has_bit : ℕ → ℕ → Bool
has_bit flags n = flags / n % 2 == 1

-- `(doff - 5) * 4` cut to a byte.
abbrev option_length : ℕ → ℕ
option_length doff = u8 (doff * 4 + 236)

-- The distance of the addresses from the packet's start, and their size.
abbrev pub address_at : ℕ → ℕ
address_at version = if version == 4 then 12 else 8

abbrev pub address_size : ℕ → ℕ
address_size version = if version == 4 then 4 else 16

-- The headers of a packet of `len` bytes in `buffer`, its TCP header at `at`. `datalen` is cut to
-- 16 bits.
unfoldable pub tcp_view : List ℕ → ℕ → ℕ → Option TcpPacket
unfolding read16 read32 slice
tcp_view buffer len at = do
  first ← get_elem? buffer 0
  let version = first / 16
  saddr ← slice buffer (address_at version) (address_size version)
  daddr ← slice buffer (address_at version + address_size version) (address_size version)
  source_hi ← get_elem? buffer at
  source_lo ← get_elem? buffer (at + 1)
  dest_hi ← get_elem? buffer (at + 2)
  dest_lo ← get_elem? buffer (at + 3)
  seq ← read32 buffer (at + 4)
  ack_seq ← read32 buffer (at + 8)
  offset ← get_elem? buffer (at + 12)
  flags ← get_elem? buffer (at + 13)
  window ← read16 buffer (at + 14)
  let optlen = option_length (offset / 16)
  let start = at + 20 + optlen
  payload ← slice buffer start (u16 (len + 2 ^ 32 - start))
  some (record {
    version = version;
    saddr = saddr;
    daddr = daddr;
    source = source_hi + 256 * source_lo;
    dest = dest_hi + 256 * dest_lo;
    seq = seq;
    ack_seq = ack_seq;
    optlen = optlen;
    syn = has_bit flags 2;
    ack = has_bit flags 16;
    psh = has_bit flags 8;
    fin = has_bit flags 1;
    rst = has_bit flags 4;
    urg = has_bit flags 32;
    window = window;
    options = drop (at + 20) buffer;
    payload = payload;
  })

-- `unfinished` is a loop that has not ended within the fuel.
pub data Decoded : Type 0 where
  decoded : ℕ → ℕ → Decoded
  fault unfinished : Decoded

-- The two values after one option.
unfoldable pub next_mss : ℕ → ℕ → List ℕ → ℕ → Option ℕ
unfolding read16
next_mss kind len options mss = if kind == 2 && len == 4 then read16 options 2 else some mss

unfoldable pub next_scale : ℕ → ℕ → List ℕ → ℕ → Option ℕ
next_scale kind len options ws = if kind == 3 && len == 3 then get_elem? options 2 else some ws

abbrev or_fault {ℓ} : {A : Type ℓ} → Option A → (A → Decoded) → Decoded
or_fault none k = fault
or_fault (some a) k = k a

-- `while (optlen > 0)`, with fuel: segment size and window scale. An `optlen` below 0 is 0 here, and
-- both end the loop.
unfoldable pub decode_options : ℕ → ℕ → List ℕ → ℕ → ℕ → Decoded
decode_options zero optlen options mss ws = if optlen == 0 then decoded mss ws else unfinished
decode_options (suc fuel) optlen options mss ws = elim (optlen == 0) [
  | true ↦ decoded mss ws
  | false ↦ or_fault (get_elem? options 0) (λ kind. or_fault (get_elem? options 1) (λ len.
      elim (kind == 0) [
        | true ↦ decoded mss ws
        | false ↦ or_fault (next_mss kind len options mss) (λ mss'.
            or_fault (next_scale kind len options ws) (λ ws'. elim (kind == 1) [
              | true ↦ decode_options fuel (optlen - 1) (drop 1 options) mss' ws'
              | false ↦ decode_options fuel (optlen - len) (drop len options) mss' ws'
            ]))
      ]))
]
