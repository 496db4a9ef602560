-- ===== src/Udp/Handle.antt =====
-- android_app/app/src/main/cpp/udp.c: `has_udp_session`, `block_udp` and `handle_udp`, which runs
-- for each UDP packet from the tun device. `fuel` is that of the loops of dns.c, `beyond` what stands
-- in memory behind the packet. The 64-bit byte counts do not wrap.
pub mod Send
pub mod Unique
use tun2http.Prelude.{
  ℕ, ◌+◌, Bool, true, false, not, ◌&&◌, ◌||◌, Option, none, some, List, [], ◌∷◌, ◌==◌,
  if◌then◌else◌, swap16, length,
}
use tun2http.Os.{Os, Call, Events, Sent}
use tun2http.Session.{
  UdpSession, UdpNode, UdpState, NgSession, Handled, handled, hung, in_udp, same_bytes,
}
use tun2http.Sockets.{open_udp_socket}
use tun2http.Dns.{byte_at, DnsQuery, dns_query, no_query, query_unfinished, get_dns_query}
use tun2http.Dhcp.{Dhcp, ignored, outside, replied, check_dhcp}
use tun2http.Udp.Check.{finishing, set_udp}

-- `struct udphdr`, the addresses in front of it and the data behind it. Ports are in network
-- notation.
pub record UdpPacket : Type 0 where
  pub version : ℕ
  pub saddr : List ℕ
  pub daddr : List ℕ
  pub source : ℕ
  pub dest : ℕ
  pub payload : List ℕ

-- The test by which a packet finds its session.
unfoldable pub matches_udp : UdpPacket → UdpSession → Bool
matches_udp p cur =
    cur.version == p.version
    && (cur.source == p.source && cur.dest == p.dest)
    && (same_bytes cur.saddr p.saddr && same_bytes cur.daddr p.daddr)

-- The loop over the sessions.
unfoldable pub find_udp : UdpPacket → List NgSession → Option UdpNode
find_udp p [] = none
find_udp p (NgSession.icmp_session s ∷ rest) = find_udp p rest
find_udp p (NgSession.tcp_session s ∷ rest) = find_udp p rest
find_udp p (NgSession.udp_session s ∷ rest) =
    let later = find_udp p rest in if matches_udp p s.udp then some s else later

-- The list with the session that the loop finds as it is after the call.
unfoldable pub put_udp : UdpPacket → UdpNode → List NgSession → List NgSession
put_udp p cur [] = []
put_udp p cur (NgSession.icmp_session s ∷ rest) = NgSession.icmp_session s ∷ put_udp p cur rest
put_udp p cur (NgSession.tcp_session s ∷ rest) = NgSession.tcp_session s ∷ put_udp p cur rest
put_udp p cur (NgSession.udp_session s ∷ rest) =
    let later = put_udp p cur rest in
    if matches_udp p s.udp
    then NgSession.udp_session cur ∷ rest
    else NgSession.udp_session s ∷ later

abbrev pub is_found : Option UdpNode → Bool
is_found none = false
is_found (some s) = true

-- `fwd53` is the field of `struct arguments`.
unfoldable pub has_udp_session : Bool → UdpPacket → List NgSession → Bool
has_udp_session fwd53 p sessions =
    swap16 p.dest == 53 && not fwd53 || is_found (find_udp p sessions)

-- The session that stands for a blocked one. `fresh` is what `malloc` returns.
unfoldable block_udp :
    Os → UdpSession → Events → UdpPacket → List NgSession → List Call → List NgSession × List Call
block_udp os fresh ev p sessions log =
    let s : UdpNode = record {
      udp = record fresh {
        time = os.time log;
        version = p.version;
        saddr = p.saddr;
        source = p.source;
        daddr = p.daddr;
        dest = p.dest;
        state = UdpState.udp_blocked;
      };
      socket = none;
      events = ev;
    } in
    (NgSession.udp_session s ∷ sessions, Call.time ∷ log)

-- UDP4_MAXMSG and UDP6_MAXMSG.
abbrev udp_maxmsg : ℕ → ℕ
udp_maxmsg version = if version == 4 then 65507 else 65487

unfoldable pub udp_session_of : UdpPacket → ℕ → UdpSession
udp_session_of p now = record {
  time = now;
  version = p.version;
  mss = udp_maxmsg p.version;
  sent = 0;
  received = 0;
  saddr = p.saddr;
  source = p.source;
  daddr = p.daddr;
  dest = p.dest;
  state = UdpState.udp_active;
}

abbrev pub udp_events : Events
udp_events = record { epollin = true; epollout = false; epollerr = true }

-- After the call of `check_dhcp`: -1 lets the packet through.
abbrev pub after_dhcp : UdpNode → Dhcp → Option (UdpNode × List Call) → Option (UdpNode × List Call)
after_dhcp s ignored go_on = go_on
after_dhcp s outside go_on = none
after_dhcp s (replied u log) go_on = some (set_udp s u, log)

abbrev pub after_dns : DnsQuery → Option (UdpNode × List Call) → Option (UdpNode × List Call)
after_dns (dns_query qtype qclass qname) go_on = go_on
after_dns no_query go_on = go_on
after_dns query_unfinished go_on = none

module _ (os : Os) where
  -- What the test of `sendto` against the length leaves: the count, or an error that ends the
  -- session unless it is EINTR or EAGAIN.
  abbrev pub after_sendto : UdpNode → ℕ → Sent → List Call → UdpNode
  after_sendto s n (Sent.failed again) log = if again then s else set_udp s (finishing s.udp)
  after_sendto s n (Sent.sent k) log =
      if k == n
      then set_udp s (record (s.udp) { sent = s.sent + n })
      else if os.errno_again log
      then s
      else set_udp s (finishing s.udp)

  unfoldable pub send_udp : UdpPacket → UdpNode → List Call → UdpNode × List Call
  send_udp p s log =
      let s' = set_udp s (record (s.udp) { time = os.time log }) in
      let log' = Call.sendto s.socket p.payload ∷ Call.time ∷ log in
      (
        after_sendto s' (length p.payload) (os.sendto (Call.time ∷ log) s.socket p.payload) log',
        log',
      )

module _ (os : Os) (fuel : ℕ) (beyond : ℕ → ℕ) where
  abbrev pub udp_dhcp : UdpPacket → UdpNode → List Call → Option (UdpNode × List Call)
  udp_dhcp p s log =
      let sent = some (send_udp os p s log) in
      if swap16 p.source == 68 || swap16 p.dest == 67
      then after_dhcp s (check_dhcp os s.udp p.payload log) sent
      else sent

  -- A packet of an active session. `none` does not come back.
  unfoldable pub handle_udp_known : UdpPacket → UdpNode → List Call → Option (UdpNode × List Call)
  handle_udp_known p s log =
      let go_on = udp_dhcp p s log in
      if swap16 p.dest == 53
      then after_dns (get_dns_query fuel (byte_at p.payload beyond) (length p.payload)) go_on
      else go_on

  -- The list of sessions, from the session after the packet.
  abbrev pub or_hung : (UdpNode → List NgSession) → Option (UdpNode × List Call) → Handled
  or_hung sessions none = hung
  or_hung sessions (some (s, log)) = handled (sessions s) log

  abbrev after_open_udp : UdpPacket → List NgSession → List Call → Option ℕ × List Call → Handled
  after_open_udp p sessions log (none, log') = handled sessions log'
  after_open_udp p sessions log (some k, log') =
      let s : UdpNode = record {
        udp = udp_session_of p (os.time log);
        socket = some k;
        events = udp_events;
      } in
      or_hung (λ s'. NgSession.udp_session s' ∷ sessions)
        (handle_udp_known p s (Call.epoll_add (some k) udp_events ∷ log'))

  -- A packet of no session: a socket is opened, and the session goes to the front of the list.
  unfoldable pub handle_udp_new : UdpPacket → List NgSession → List Call → Handled
  handle_udp_new p sessions log =
      after_open_udp p sessions log (open_udp_socket os p.version p.daddr (Call.time ∷ log))

  -- A packet of a session that is not active is ignored.
  abbrev after_find : UdpPacket → List NgSession → List Call → Option UdpNode → Handled
  after_find p sessions log none = handle_udp_new p sessions log
  after_find p sessions log (some s) =
      if in_udp s.state UdpState.udp_active
      then or_hung (λ s'. put_udp p s' sessions) (handle_udp_known p s log)
      else handled sessions log

  unfoldable pub handle_udp : UdpPacket → List NgSession → List Call → Handled
  handle_udp p sessions log = after_find p sessions log (find_udp p sessions)
