-- ===== src/Icmp/Handle.antt =====
-- android_app/app/src/main/cpp/icmp.c: `handle_icmp`, which runs for each ICMP packet from the tun
-- device.
pub mod Send
pub mod Kept
use tun2http.Prelude.{
  ℕ, ◌+◌, Bool, true, false, not, ◌&&◌, ◌||◌, Option, none, some, List, [], ◌∷◌, ◌==◌,
  if◌then◌else◌, not16, length,
}
use tun2http.Packet.{pseudo6}
use tun2http.Util.{calc_checksum}
use tun2http.Os.{Os, Call, Events, Sent}
use tun2http.Sockets.{open_icmp_socket}
use tun2http.Session.{IcmpSession, IcmpNode, NgSession, Handled, handled, hung, same_bytes}
use tun2http.Icmp.Write.{icmp_type, icmp_id, readdress}
use tun2http.Icmp.Socket.{set_icmp, stopped}

-- The IP header's fields that are read, and the message. `plen` is the two bytes of an IPv6 header's
-- payload length, `next_header` its next header.
pub record IcmpPacket : Type 0 where
  pub version : ℕ
  pub saddr : List ℕ
  pub daddr : List ℕ
  pub plen : List ℕ
  pub next_header : ℕ
  pub message : List ℕ

-- ICMP_ECHO
abbrev pub icmp_echo : ℕ
icmp_echo = 8

-- The test by which a packet finds its session.
unfoldable pub matches_icmp : IcmpPacket → IcmpSession → Bool
matches_icmp p cur =
    not cur.stop
    && cur.version == p.version
    && (same_bytes cur.saddr p.saddr && same_bytes cur.daddr p.daddr)

-- The loop over the sessions.
unfoldable pub find_icmp : IcmpPacket → List NgSession → Option IcmpNode
find_icmp p [] = none
find_icmp p (NgSession.udp_session s ∷ rest) = find_icmp p rest
find_icmp p (NgSession.tcp_session s ∷ rest) = find_icmp p rest
find_icmp p (NgSession.icmp_session s ∷ rest) =
    let later = find_icmp p rest in if matches_icmp p s.icmp then some s else later

-- The list with the session that the loop finds as it is after the call.
unfoldable pub put_icmp : IcmpPacket → IcmpNode → List NgSession → List NgSession
put_icmp p cur [] = []
put_icmp p cur (NgSession.udp_session s ∷ rest) = NgSession.udp_session s ∷ put_icmp p cur rest
put_icmp p cur (NgSession.tcp_session s ∷ rest) = NgSession.tcp_session s ∷ put_icmp p cur rest
put_icmp p cur (NgSession.icmp_session s ∷ rest) =
    let later = put_icmp p cur rest in
    if matches_icmp p s.icmp
    then NgSession.icmp_session cur ∷ rest
    else NgSession.icmp_session s ∷ later

unfoldable pub icmp_session_of : IcmpPacket → ℕ → IcmpSession
icmp_session_of p now = record {
  time = now;
  version = p.version;
  saddr = p.saddr;
  daddr = p.daddr;
  id = icmp_id p.message;
  stop = false;
}

abbrev pub icmp_events : Events
icmp_events = record { epollin = true; epollout = false; epollerr = true }

-- The sum of a request's pseudo header.
unfoldable pub request_pseudo : IcmpPacket → ℕ
request_pseudo p =
    if p.version == 6 then calc_checksum 0 (pseudo6 p.plen p.next_header p.daddr p.saddr) else 0

-- The request with the complement of its identifier.
abbrev pub icmp_request : IcmpPacket → List ℕ
icmp_request p = readdress (request_pseudo p) p.message (not16 (icmp_id p.message))

module _ (os : Os) where
  abbrev pub after_sendto_icmp : IcmpNode → ℕ → Sent → List Call → IcmpNode
  after_sendto_icmp s n (Sent.failed again) log = if again then s else stopped s
  after_sendto_icmp s n (Sent.sent k) log =
      if k == n then s else if os.errno_again log then s else stopped s

  -- A request on its session.
  unfoldable pub send_icmp : IcmpPacket → IcmpNode → List Call → IcmpNode × List Call
  send_icmp p s log =
      let s' = set_icmp s (record (s.icmp) { time = os.time log }) in
      let request = icmp_request p in
      let log' = Call.sendto s.socket request ∷ Call.time ∷ log in
      (
        after_sendto_icmp s' (length p.message) (os.sendto (Call.time ∷ log) s.socket request) log',
        log',
      )

  abbrev pub after_open_icmp :
      IcmpPacket → List NgSession → List Call → Option ℕ × List Call → Handled
  after_open_icmp p sessions log (none, log') = handled sessions log'
  after_open_icmp p sessions log (some k, log') =
      let s : IcmpNode = record {
        icmp = icmp_session_of p (os.time log);
        socket = some k;
        events = icmp_events;
      } in
      let sent = send_icmp p s (Call.epoll_add (some k) icmp_events ∷ log') in
      handled (NgSession.icmp_session sent.0 ∷ sessions) sent.1

  abbrev pub after_find_icmp : IcmpPacket → List NgSession → List Call → Option IcmpNode → Handled
  after_find_icmp p sessions log none =
      after_open_icmp p sessions log (open_icmp_socket os p.version (Call.time ∷ log))
  after_find_icmp p sessions log (some s) =
      handled (put_icmp p (send_icmp p s log).0 sessions) (send_icmp p s log).1

  -- Echo requests only.
  unfoldable pub handle_icmp : IcmpPacket → List NgSession → List Call → Handled
  handle_icmp p sessions log =
      if icmp_type p.message == icmp_echo
      then after_find_icmp p sessions log (find_icmp p sessions)
      else handled sessions log
