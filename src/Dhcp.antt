-- ===== src/Dhcp.antt =====
-- android_app/app/src/main/cpp/dhcp.c: `check_dhcp`, the answer to a DHCP discover or request.
pub mod Options
use tun2http.Prelude.{
  ℕ, ◌+◌, ◌*◌, ◌^◌, Bool, true, false, ◌&&◌, ◌||◌, not, Option, none, some, List, [], ◌∷◌, ◌++◌,
  ltb, leb, ◌==◌, if◌then◌else◌, get_or, length, take, drop, replicate,
}
use tun2http.Os.{Os, Call}
use tun2http.Session.{UdpSession, same_bytes}
use tun2http.Udp.Write.{write_udp}

-- sizeof(struct dhcp_packet), and the size of the buffer for the answer.
abbrev dhcp_packet_size : ℕ
dhcp_packet_size = 240

abbrev pub response_size : ℕ
response_size = 500

-- `ignored` is -1 and `replied` is 0; `outside` is a write outside the buffer.
pub data Dhcp : Type 0 where
  ignored outside : Dhcp
  replied : UdpSession → List Call → Dhcp

-- The three tests of a request: its length, the magic number, Ethernet addresses.
unfoldable pub is_dhcp : List ℕ → Bool
is_dhcp bytes =
    not (ltb (length bytes) dhcp_packet_size)
    && (same_bytes (take 4 (drop 236 bytes)) (0x63 ∷ 0x82 ∷ 0x53 ∷ 0x63 ∷ [])
        && (get_or bytes 1 0 == 1 && get_or bytes 2 0 == 6))

unfoldable pub dhcp_opcode : List ℕ → ℕ
dhcp_opcode bytes = get_or bytes 0 0

-- `siaddr == 0`, which tells a discover from a request.
abbrev is_discover : List ℕ → Bool
is_discover bytes = same_bytes (take 4 (drop 20 bytes)) (0 ∷ 0 ∷ 0 ∷ 0 ∷ [])

abbrev router : List ℕ
router = 10 ∷ 1 ∷ 10 ∷ 1 ∷ []

-- `struct dhcp_packet` of the answer: transaction and addresses of the hardware as in the request.
abbrev pub response_header : List ℕ → List ℕ
response_header bytes =
    (if is_discover bytes then 2 else 4)
    ∷ (take 7 (drop 1 bytes)
        ++ (replicate 8 0
            ++ ((10 ∷ 1 ∷ 10 ∷ 2 ∷ []) ++ (router ++ (replicate 4 0 ++ take 212 (drop 28 bytes))))))

-- Message type, subnet mask, gateway, lease time, server, name server, end. The lease time is
-- stored in the host's order.
abbrev pub response_options : List ℕ → List ℕ
response_options bytes =
    53
    ∷ 1
    ∷ (if is_discover bytes then 2 else 5)
    ∷ 1
    ∷ 4
    ∷ 255
    ∷ 255
    ∷ 255
    ∷ 0
    ∷ 3
    ∷ 4
    ∷ 10
    ∷ 1
    ∷ 10
    ∷ 1
    ∷ 51
    ∷ 4
    ∷ 16
    ∷ 14
    ∷ 0
    ∷ 0
    ∷ 54
    ∷ 4
    ∷ 10
    ∷ 1
    ∷ 10
    ∷ 1
    ∷ 6
    ∷ 4
    ∷ 8
    ∷ 8
    ∷ 8
    ∷ 8
    ∷ 255
    ∷ []

-- Bytes stored in a buffer; `none` outside it.
unfoldable pub store : List ℕ → ℕ → List ℕ → Option (List ℕ)
store buffer at bytes =
    if leb (at + length bytes) (length buffer)
    then some (take at buffer ++ (bytes ++ drop (at + length bytes) buffer))
    else none

-- `response + sizeof(struct dhcp_packet)`, which counts in packets and not in bytes.
abbrev pub options_at : ℕ
options_at = dhcp_packet_size * dhcp_packet_size

abbrev pub store_options : Option (List ℕ) → List ℕ → Option (List ℕ)
store_options none bytes = none
store_options (some buffer) bytes = store buffer options_at (response_options bytes)

unfoldable pub build_response : List ℕ → Option (List ℕ)
build_response bytes =
    store_options (store (replicate response_size 0) 0 (response_header bytes)) bytes

module _ (os : Os) where
  abbrev answer_dhcp : UdpSession → Option (List ℕ) → List Call → Dhcp
  answer_dhcp u none log = outside
  answer_dhcp u (some response) log =
      let u' = record u { saddr = router ++ drop 4 u.saddr } in
      replied u' (write_udp os u' response log).1

  unfoldable pub check_dhcp : UdpSession → List ℕ → List Call → Dhcp
  check_dhcp u bytes log =
      if is_dhcp bytes
      then if dhcp_opcode bytes == 1
        then answer_dhcp u (build_response bytes) log
        else replied u log
      else ignored
