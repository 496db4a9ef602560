-- ===== src/Tcp/Write/Packet.antt =====
-- The packets of `write_tcp` as a receiver checks them.
use mathlib.Core.List.{append_assoc}
use tun2http.Prelude.{
  ℕ, ◌+◌, ◌≤◌, ◌<◌, ◌≡◌, refl, sym, ◌∙◌, ap, List, [], ◌∷◌, ◌++◌, length, length-append, ◌==◌,
  if◌then◌else◌, store16, arith, ◌^◌,
}
use tun2http.Util.{calc_checksum}
use tun2http.Util.Checksum.{
  IsBytes, IsBytes-append, calc_checksum-append, calc_checksum-lt, checksum_verifies,
}
use tun2http.Packet.{proto_tcp}
use tun2http.Packet.Pseudo.{
  pseudo_header-IsBytes, length-pseudo_header, receiver_pseudo, calc_checksum-pseudo_header,
}
use tun2http.Packet.Check.{IsAddress}
use tun2http.Session.{TcpSession}
use tun2http.Tcp.Write.{
  Flags, optlen, tcp_options, tcp_front, tcp_header, tcp_pseudo, tcp_sum, tcp_segment,
}

-- What the fields of a session are in memory, as far as a packet shows them.
pub record IsEndpoint (cur : TcpSession) : Type 0 where
  pub source_address : IsAddress cur.version cur.saddr
  pub dest_address : IsAddress cur.version cur.daddr
  pub scale_byte : cur.recv_scale < 256

module _ (cur : TcpSession) (flags : Flags) (h : IsEndpoint cur) where
  front-IsBytes : IsBytes (tcp_front cur flags)
  unfolding tcp_front
  front-IsBytes = ground arith

  front_length : length (tcp_front cur flags) ≡ 16
  unfolding tcp_front
  front_length = refl

  header-IsBytes : IsBytes (tcp_header cur flags 0)
  unfolding tcp_header
  header-IsBytes = IsBytes-append (tcp_front cur flags) _ front-IsBytes (omega arith)

  header_length : length (tcp_header cur flags 0) ≡ 20
  unfolding tcp_header tcp_front
  header_length = refl

  options-IsBytes : IsBytes (tcp_options cur flags.syn)
  unfolding tcp_options
  options-IsBytes = ground arith

  options_length : length (tcp_options cur flags.syn) ≡ optlen flags.syn
  unfolding tcp_options
  options_length = ground arith

  pseudo-IsBytes : (len : ℕ) → IsBytes (tcp_pseudo cur len)
  unfolding tcp_pseudo
  pseudo-IsBytes len =
      pseudo_header-IsBytes cur.version proto_tcp len cur.saddr cur.daddr (omega arith)
        h.source_address h.dest_address

  pseudo_length : (len : ℕ) → length (tcp_pseudo cur len) ≡ (if cur.version == 4 then 12 else 40)
  unfolding tcp_pseudo
  pseudo_length len =
      length-pseudo_header cur.version proto_tcp len cur.saddr cur.daddr h.source_address
        h.dest_address

  -- Everything behind the checksum field.
  abbrev behind_check : List ℕ → List ℕ
  behind_check bytes = 0 ∷ 0 ∷ (tcp_options cur flags.syn ++ bytes)

  header_append :
      (check : ℕ) (bytes : List ℕ)
      → tcp_header cur flags check ++ (tcp_options cur flags.syn ++ bytes)
        ≡ tcp_front cur flags ++ (store16 check ++ behind_check bytes)
  unfolding tcp_header
  header_append check bytes = append_assoc (tcp_front cur flags) (store16 check ++ (0 ∷ 0 ∷ [])) _

  abbrev pseudo_sum : List ℕ → ℕ
  pseudo_sum bytes = calc_checksum 0 (tcp_pseudo cur (20 + optlen flags.syn + length bytes))

  pseudo_sum-lt : (bytes : List ℕ) → pseudo_sum bytes < 2 ^ 16
  pseudo_sum-lt bytes =
      let n : ℕ = 20 + optlen flags.syn + length bytes in
      calc_checksum-lt 0 (tcp_pseudo cur n) (omega arith) (pseudo-IsBytes n)
        (ground (arith, pseudo_length n))

  tcp_sum_lem :
      (bytes : List ℕ)
      → IsBytes bytes
      → length bytes ≤ 60000
      → tcp_sum cur flags bytes
        ≡ calc_checksum
            (pseudo_sum bytes)
            (tcp_front cur flags ++ (store16 0 ++ behind_check bytes))
  unfolding tcp_sum
  tcp_sum_lem bytes hb hl =
      let p : ℕ = pseudo_sum bytes in
      let header : List ℕ = tcp_header cur flags 0 in
      let options : List ℕ = tcp_options cur flags.syn in
      let p_small : p < 2 ^ 16 = pseudo_sum-lt bytes in
      let header_small : calc_checksum p header < 2 ^ 16 =
        calc_checksum-lt p header p_small header-IsBytes (omega (arith, header_length)) in
      calc_checksum-append (calc_checksum p header) options bytes header_small
        (ground (arith, options_length)) options-IsBytes hb (ground (arith, options_length))
      ∙ calc_checksum-append p header (options ++ bytes) p_small (omega (arith, header_length))
          header-IsBytes (IsBytes-append options bytes options-IsBytes hb)
          (ground (arith, options_length, header_length, length-append options bytes))
      ∙ ap (calc_checksum p) (header_append 0 bytes)

  behind-IsBytes : (bytes : List ℕ) → IsBytes bytes → IsBytes (behind_check bytes)
  behind-IsBytes bytes hb = (
    omega arith,
    (omega arith, IsBytes-append (tcp_options cur flags.syn) bytes options-IsBytes hb),
  )

  segment_length :
      (bytes : List ℕ) → length (tcp_segment cur flags bytes) ≡ 20 + optlen flags.syn + length bytes
  unfolding tcp_segment tcp_header tcp_front
  segment_length bytes =
      omega (arith, options_length, length-append (tcp_options cur flags.syn) bytes)

  -- The segment that the code builds, with the pseudo header of RFC 793 or RFC 2460 in front, sums to
  -- 0xFFFF, so that a receiver accepts it: for both IP versions, all flags, with options or without,
  -- and for data of up to 60000 bytes, odd lengths included. The session's addresses have the size of
  -- its version and its window scale is a byte.
  pub tcp_segment_verifies :
      (bytes : List ℕ)
      → IsBytes bytes
      → length bytes ≤ 60000
      → calc_checksum
          (calc_checksum 0 (
            receiver_pseudo cur.version 6
              (length (tcp_segment cur flags bytes))
              cur.daddr
              cur.saddr))
          (tcp_segment cur flags bytes)
        ≡ 65535
  unfolding tcp_segment tcp_pseudo
  tcp_segment_verifies bytes hb hl =
      let n : ℕ = 20 + optlen flags.syn + length bytes in
      let small : n < 2 ^ 16 = ground arith in
      let size : length (tcp_segment cur flags bytes) ≡ n = segment_length bytes in
      let same =
        calc_checksum-pseudo_header proto_tcp n (omega arith) small cur.saddr cur.daddr cur.version
          h.source_address h.dest_address in
      rw (size, sym same, tcp_sum_lem bytes hb hl)
        (ap (calc_checksum (pseudo_sum bytes)) (header_append _ bytes)
          ∙ checksum_verifies (pseudo_sum bytes) (tcp_front cur flags) (behind_check bytes)
              (pseudo_sum-lt bytes) (omega (arith, front_length)) front-IsBytes
              (behind-IsBytes bytes hb)
              (ground (
                arith,
                front_length,
                options_length,
                length-append (tcp_options cur flags.syn) bytes,
              )))
