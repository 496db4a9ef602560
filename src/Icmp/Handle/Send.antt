-- ===== src/Icmp/Handle/Send.antt =====
-- What an ICMP packet does to the session that it finds.
use tun2http.Prelude.{ℕ, ◌≡◌, refl, true, List, ◌∷◌, length, arith}
use tun2http.Os.{Os, Call, Sent}
use tun2http.Session.{IcmpNode}
use tun2http.Icmp.Socket.{set_icmp}
use tun2http.Icmp.Handle.{IcmpPacket, icmp_request, after_sendto_icmp, send_icmp}

-- The session keeps its addresses, identifier and socket, and does not start again once stopped.
pub record IsPinged (s next : IcmpNode) : Type 0 where
  pub same_version : next.version ≡ s.version
  pub same_saddr : next.saddr ≡ s.saddr
  pub same_daddr : next.daddr ≡ s.daddr
  pub same_id : next.id ≡ s.id
  pub same_socket : next.socket ≡ s.socket
  pub stays_stopped : s.stop ≡ true → next.stop ≡ true

after_sendto_icmp-IsPinged :
    (os : Os) (s : IcmpNode) (n : ℕ) (r : Sent) (log : List Call)
    → IsPinged s (after_sendto_icmp os s n r log)
after_sendto_icmp-IsPinged os s n (Sent.failed again) log = ground arith
after_sendto_icmp-IsPinged os s n (Sent.sent k) log = ground arith

-- A request on a session leaves the session's identifier as the first request set it, whatever its
-- own: a reply to it goes back with that of the first. The addresses and the socket stay as well,
-- and one message is sent on the socket.
pub send_icmp-IsPinged :
    (os : Os) (p : IcmpPacket) (s : IcmpNode) (log : List Call)
    → IsPinged s (send_icmp os p s log).0
      × ((send_icmp os p s log).1 ≡ Call.sendto s.socket (icmp_request p) ∷ Call.time ∷ log)
unfolding send_icmp
send_icmp-IsPinged os p s log =
    let s' : IcmpNode = set_icmp s (record (s.icmp) { time = os.time log }) in
    let kept =
      after_sendto_icmp-IsPinged os s' (length p.message)
        (os.sendto (Call.time ∷ log) s.socket (icmp_request p))
        (Call.sendto s.socket (icmp_request p) ∷ Call.time ∷ log) in
    (
      record {
        same_version = kept.same_version;
        same_saddr = kept.same_saddr;
        same_daddr = kept.same_daddr;
        same_id = kept.same_id;
        same_socket = kept.same_socket;
        stays_stopped = kept.stays_stopped;
      },
      refl,
    )
