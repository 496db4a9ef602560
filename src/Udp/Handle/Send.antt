-- ===== src/Udp/Handle/Send.antt =====
-- What a UDP packet does to the session that it finds.
use tun2http.Prelude.{
  ℕ, ◌≡◌, Bool, true, false, ◌||◌, Option, none, some, List, ◌∷◌, ◌==◌, if◌then◌else◌, length,
  arith,
}
use tun2http.Os.{Os, Call, Sent}
use tun2http.Session.{UdpNode, UdpState, in_udp}
use tun2http.Dns.{byte_at, DnsQuery, dns_query, no_query, query_unfinished, get_dns_query}
use tun2http.Dhcp.{ignored, outside, replied, is_dhcp, dhcp_opcode, check_dhcp}
use tun2http.Dhcp.Options.{check_dhcp-cases}
use tun2http.Udp.Check.{set_udp}
use tun2http.Udp.Handle.{
  UdpPacket, after_dhcp, after_dns, after_sendto, send_udp, udp_dhcp, handle_udp_known,
}

-- The session keeps its addresses, ports and socket; its state stays, or an active one is to finish.
pub record IsKept (s next : UdpNode) : Type 0 where
  pub same_version : next.version ≡ s.version
  pub same_source : next.source ≡ s.source
  pub same_dest : next.dest ≡ s.dest
  pub same_saddr : next.saddr ≡ s.saddr
  pub same_daddr : next.daddr ≡ s.daddr
  pub same_socket : next.socket ≡ s.socket
  pub live :
      in_udp s.state UdpState.udp_active ≡ true
      → in_udp next.state UdpState.udp_closed || in_udp next.state UdpState.udp_blocked ≡ false

abbrev pub Gives : (UdpNode → Type 0) → Option (UdpNode × List Call) → Type 0
Gives P none = Unit {0}
Gives P (some (s, log)) = P s

after_sendto-IsKept :
    (os : Os) (s : UdpNode) (n : ℕ) (r : Sent) (log : List Call)
    → IsKept s (after_sendto os s n r log)
after_sendto-IsKept os s n (Sent.failed again) log = ground arith
after_sendto-IsKept os s n (Sent.sent k) log = ground arith

module _ (os : Os) where
  send_udp-IsKept :
      (p : UdpPacket) (s : UdpNode) (log : List Call) → IsKept s (send_udp os p s log).0
  unfolding send_udp
  send_udp-IsKept p s log =
      let s' : UdpNode = set_udp s (record (s.udp) { time = os.time log }) in
      let kept =
        after_sendto-IsKept os s' (length p.payload)
          (os.sendto (Call.time ∷ log) s.socket p.payload)
          (Call.sendto s.socket p.payload ∷ Call.time ∷ log) in
      record {
        same_version = kept.same_version;
        same_source = kept.same_source;
        same_dest = kept.same_dest;
        same_saddr = kept.same_saddr;
        same_daddr = kept.same_daddr;
        same_socket = kept.same_socket;
        live = kept.live;
      }

-- A call of `check_dhcp` that comes back has not changed the session.
after_dhcp_cases :
    (s : UdpNode) (log : List Call) (dhcp request : Bool) (go_on : UdpNode × List Call)
    → IsKept s go_on.0
    → Gives (IsKept s) (
        after_dhcp s
          (if dhcp then if request then outside else replied s.udp log else ignored)
          (some go_on))
after_dhcp_cases s log true true go_on h = tt
after_dhcp_cases s log true false go_on h = ground arith
after_dhcp_cases s log false request go_on h = h

module _ (os : Os) where
  after_dhcp-IsKept :
      (p : UdpPacket) (s : UdpNode) (log : List Call)
      → Gives
          (IsKept s)
          (after_dhcp s (check_dhcp os s.udp p.payload log) (some (send_udp os p s log)))
  after_dhcp-IsKept p s log = rw (check_dhcp-cases os s.udp p.payload log) (
      after_dhcp_cases s log (is_dhcp p.payload) (dhcp_opcode p.payload == 1) (send_udp os p s log)
        (send_udp-IsKept os p s log))

module _ (os : Os) (fuel : ℕ) (beyond : ℕ → ℕ) where
  udp_dhcp-IsKept :
      (p : UdpPacket) (s : UdpNode) (log : List Call)
      → Gives (IsKept s) (udp_dhcp os fuel beyond p s log)
  udp_dhcp-IsKept p s log = ground (arith, after_dhcp-IsKept os p s log, send_udp-IsKept os p s log)

  after_dns-IsKept :
      (s : UdpNode) (q : DnsQuery) (r : Option (UdpNode × List Call))
      → Gives (IsKept s) r
      → Gives (IsKept s) (after_dns q r)
  after_dns-IsKept s (dns_query qtype qclass qname) r h = h
  after_dns-IsKept s no_query r h = h
  after_dns-IsKept s query_unfinished r h = tt

  pub handle_udp_known-IsKept :
      (p : UdpPacket) (s : UdpNode) (log : List Call)
      → Gives (IsKept s) (handle_udp_known os fuel beyond p s log)
  unfolding handle_udp_known
  handle_udp_known-IsKept p s log =
      let kept = udp_dhcp-IsKept p s log in
      ground (
        arith,
        after_dns-IsKept s (get_dns_query fuel (byte_at p.payload beyond) (length p.payload))
            (udp_dhcp os fuel beyond p s log) kept,
      )
