-- ===== src/Tcp/Write.antt =====
-- android_app/app/src/main/cpp/tcp.c: `write_tcp`, which builds a packet and writes it to the tun
-- device, and the five wrappers around it. A wrapper returns whether it succeeded, the session and
-- the log of calls.
pub mod Packet
pub mod Reset
use tun2http.Prelude.{
  ℕ, suc, ◌+◌, ◌*◌, ◌/◌, ◌%◌, ◌^◌, Bool, true, false, ◌&&◌, not, Option, none, some, List, [], ◌∷◌,
  ◌++◌, ◌==◌, if◌then◌else◌, u16, u32, not16, store16, be16, be32, length,
}
use tun2http.Packet.{
  get_default_mss, iphdr_size, ip6_hdr_size, tcphdr_size, ip4_header, ip6_header, pseudo_header,
  proto_tcp,
}
use tun2http.Util.{calc_checksum}
use tun2http.Os.{Os, Call}
use tun2http.Session.{TcpSession, TcpState, in_state}

pub record Flags : Type 0 where
  pub syn : Bool
  pub ack : Bool
  pub fin : Bool
  pub rst : Bool

abbrev bit : Bool → ℕ → ℕ
bit b n = if b then n else 0

-- MSS, window scale and the padding, on a SYN. The MSS is stored without `htons`.
unfoldable pub tcp_options : TcpSession → Bool → List ℕ
tcp_options cur syn =
    if syn
    then 2 ∷ 4 ∷ (store16 (get_default_mss cur.version) ++ (3 ∷ 3 ∷ cur.recv_scale ∷ 0 ∷ []))
    else []

abbrev pub optlen : Bool → ℕ
optlen syn = if syn then 8 else 0

-- The sixteen bytes before the checksum of `struct tcphdr`.
unfoldable pub tcp_front : TcpSession → Flags → List ℕ
tcp_front cur flags =
    store16 cur.dest
    ++ (store16 cur.source
        ++ (be32 cur.local_seq
            ++ (be32 (if flags.ack then cur.remote_seq else 0)
                ++ ((tcphdr_size + optlen flags.syn) / 4 * 16
                    ∷ (bit flags.fin 1 + bit flags.syn 2 + bit flags.rst 4 + bit flags.ack 16)
                    ∷ be16 (cur.recv_window / 2 ^ cur.recv_scale)))))

-- `struct tcphdr` with `check` for its checksum.
unfoldable pub tcp_header : TcpSession → Flags → ℕ → List ℕ
tcp_header cur flags check = tcp_front cur flags ++ (store16 check ++ (0 ∷ 0 ∷ []))

-- The checksum of the pseudo header.
unfoldable pub tcp_pseudo : TcpSession → ℕ → List ℕ
tcp_pseudo cur len = pseudo_header cur.version proto_tcp len cur.saddr cur.daddr

-- The sum over the pseudo header, the header with a zero checksum, the options and the data.
unfoldable pub tcp_sum : TcpSession → Flags → List ℕ → ℕ
tcp_sum cur flags bytes =
    calc_checksum
      (calc_checksum
        (calc_checksum
          (calc_checksum 0 (tcp_pseudo cur (tcphdr_size + optlen flags.syn + length bytes)))
          (tcp_header cur flags 0))
        (tcp_options cur flags.syn))
      bytes

-- The TCP part of the packet.
unfoldable pub tcp_segment : TcpSession → Flags → List ℕ → List ℕ
tcp_segment cur flags bytes =
    tcp_header cur flags (not16 (tcp_sum cur flags bytes)) ++ (tcp_options cur flags.syn ++ bytes)

-- The bytes that `write_tcp` hands to the tun device.
unfoldable pub tcp_packet : TcpSession → Flags → List ℕ → List ℕ
tcp_packet cur flags bytes =
    let len = tcphdr_size + optlen flags.syn + length bytes in
    if cur.version == 4
    then ip4_header (iphdr_size + len) proto_tcp cur.daddr cur.saddr ++ tcp_segment cur flags bytes
    else ip6_header len proto_tcp cur.daddr cur.saddr ++ tcp_segment cur flags bytes

-- A packet that is not written whole closes the session.
abbrev or_closing : TcpSession → Bool × List Call → Bool × TcpSession × List Call
or_closing cur (true, log) = (true, cur, log)
or_closing cur (false, log) = (false, record cur { state = TcpState.closing }, log)

-- A session that waits for its socket acknowledges the SYN first.
abbrev pub reset_seq : TcpSession → TcpSession
reset_seq cur =
    if in_state cur.state TcpState.listen
    then record cur { remote_seq = u32 (cur.remote_seq + 1) }
    else cur

module _ (os : Os) where
  -- Whether the whole packet was written.
  unfoldable pub write_tcp : TcpSession → List ℕ → Flags → List Call → Bool × List Call
  write_tcp cur bytes flags log =
      let packet = tcp_packet cur flags bytes in
      (
        elim (os.tun_write log packet) [ none ↦ false | some n ↦ n == length packet ],
        Call.tun_write packet ∷ log,
      )

  unfoldable pub write_syn_ack : TcpSession → List Call → Bool × TcpSession × List Call
  write_syn_ack cur log =
      or_closing cur
        (write_tcp cur [] (record { syn = true; ack = true; fin = false; rst = false }) log)

  unfoldable pub write_ack : TcpSession → List Call → Bool × TcpSession × List Call
  write_ack cur log =
      or_closing cur
        (write_tcp cur [] (record { syn = false; ack = true; fin = false; rst = false }) log)

  unfoldable pub write_data : TcpSession → List ℕ → List Call → Bool × TcpSession × List Call
  write_data cur bytes log =
      or_closing cur
        (write_tcp cur bytes (record { syn = false; ack = true; fin = false; rst = false }) log)

  unfoldable pub write_fin_ack : TcpSession → List Call → Bool × TcpSession × List Call
  write_fin_ack cur log =
      or_closing cur
        (write_tcp cur [] (record { syn = false; ack = true; fin = true; rst = false }) log)

  unfoldable pub write_rst : TcpSession → List Call → TcpSession × List Call
  write_rst cur log =
      let ack = in_state cur.state TcpState.listen in
      let cur' = reset_seq cur in
      let wrote =
        write_tcp cur' [] (record { syn = false; ack = ack; fin = false; rst = true }) log in
      (
        if in_state cur'.state TcpState.close
            then cur'
            else record cur' { state = TcpState.closing },
        wrote.1,
      )
