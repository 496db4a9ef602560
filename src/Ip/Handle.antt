-- ===== src/Ip/Handle.antt =====
-- android_app/app/src/main/cpp/ip.c: `handle_ip` from the payload on, and `check_tun`. `fuel` is
-- that of the loops of dns.c, `beyond` what stands in memory behind the packet, `inet_ntoa` the C
-- library's.
use tun2http.Prelude.{
  ℕ, Bool, true, false, not, ◌&&◌, ◌||◌, Option, none, some, List, [], ◌∷◌, ◌++◌, ◌==◌, leb,
  if◌then◌else◌, length, drop,
}
use tun2http.Packet.{proto_icmp, proto_icmp6, proto_tcp, proto_udp, tcphdr_size, udphdr_size}
use tun2http.Os.{Os, Call, Events, Received}
use tun2http.Session.{NgSession, Handled, handled, hung}
use tun2http.Tcp.Header.{TcpPacket, tcp_view}
use tun2http.Tcp.Handle.{handle_tcp}
use tun2http.Udp.Handle.{UdpPacket, has_udp_session, handle_udp}
use tun2http.Icmp.Handle.{IcmpPacket, handle_icmp}
use tun2http.Ip.{
  Target, target, dropped, outside, unfinished, ip_target, is_short, udp_view, icmp_view,
}

-- sizeof(struct icmp)
abbrev icmp_size : ℕ
icmp_size = 28

-- The fields of `struct arguments` and the variables that the functions read.
pub record Settings : Type 0 where
  pub fwd53 : Bool
  -- loglevel < ANDROID_LOG_WARN
  pub verbose : Bool
  pub maxsessions : ℕ

module _ (os : Os) (inet_ntoa : List ℕ → List ℕ) (fuel : ℕ) (beyond : ℕ → ℕ) (args : Settings) where
  -- Whether there is room for another session.
  abbrev is_full : ℕ → Bool
  is_full sessions = leb (args.maxsessions) sessions

  abbrev pub ip_icmp : Option IcmpPacket → ℕ → List NgSession → List Call → Handled
  ip_icmp none count sessions log = hung
  ip_icmp (some p) count sessions log =
      if is_full count then handled sessions log else handle_icmp os p sessions log

  abbrev pub ip_udp : Option UdpPacket → ℕ → List NgSession → List Call → Handled
  ip_udp none count sessions log = hung
  ip_udp (some p) count sessions log =
      if is_full count && not (has_udp_session args.fwd53 p sessions)
      then handled sessions log
      else handle_udp os fuel beyond p sessions log

  abbrev pub ip_tcp : Option TcpPacket → ℕ → List NgSession → List Call → Handled
  ip_tcp none count sessions log = hung
  ip_tcp (some p) count sessions log =
      if is_full count && p.syn
      then handled sessions log
      else handle_tcp os inet_ntoa p sessions log

  -- `count` is the number of sessions that were counted when the round began.
  unfoldable pub dispatch_ip : List ℕ → ℕ → ℕ → ℕ → ℕ → List NgSession → List Call → Handled
  dispatch_ip buffer len protocol at count sessions log =
      if protocol == proto_icmp || protocol == proto_icmp6
      then if is_short len at icmp_size
        then handled sessions log
        else ip_icmp (icmp_view buffer len at) count sessions log
      else if protocol == proto_udp
      then if is_short len at udphdr_size
        then handled sessions log
        else ip_udp (udp_view buffer len at) count sessions log
      else if protocol == proto_tcp
      then if is_short len at tcphdr_size
        then handled sessions log
        else ip_tcp (tcp_view buffer len at) count sessions log
      else handled sessions log

  abbrev pub after_target : List ℕ → ℕ → Target → ℕ → List NgSession → List Call → Handled
  after_target buffer len (target protocol at) count sessions log =
      dispatch_ip buffer len protocol at count sessions log
  after_target buffer len dropped count sessions log = handled sessions log
  after_target buffer len outside count sessions log = hung
  after_target buffer len unfinished count sessions log = hung

  unfoldable pub handle_ip : List ℕ → ℕ → ℕ → List NgSession → List Call → Handled
  handle_ip buffer len count sessions log =
      after_target buffer len (ip_target args.verbose buffer len) count sessions log

  -- A packet in its buffer of twice the MTU; `junk` is what `malloc` returns.
  abbrev pub tun_buffer : List ℕ → List ℕ → List ℕ
  tun_buffer junk bytes = bytes ++ drop (length bytes) junk

  -- The answer is whether the function returns -1, with what became of the sessions.
  abbrev pub tun_received : List ℕ → Received → ℕ → List NgSession → List Call → Bool × Handled
  tun_received junk (Received.failed again) count sessions log = (not again, handled sessions log)
  tun_received junk (Received.bytes []) count sessions log = (true, handled sessions log)
  tun_received junk (Received.bytes (b ∷ bytes)) count sessions log =
      (false, handle_ip (tun_buffer junk (b ∷ bytes)) (length (b ∷ bytes)) count sessions log)

  unfoldable pub check_tun : List ℕ → Events → ℕ → List NgSession → List Call → Bool × Handled
  check_tun junk ev count sessions log =
      if ev.epollerr
      then (true, handled sessions log)
      else if ev.epollin
      then tun_received junk (os.tun_read log) count sessions (Call.tun_read ∷ log)
      else (false, handled sessions log)
