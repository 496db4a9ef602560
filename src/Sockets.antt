-- ===== src/Sockets.antt =====
-- `open_tcp_socket`, `open_udp_socket` and `open_icmp_socket` of tcp.c, udp.c and icmp.c in
-- android_app/app/src/main/cpp, and `protect_socket` of tun2http.c. Each returns the socket, `none` for
-- -1, and the log.
pub mod Cases
use tun2http.Prelude.{
  ℕ, Bool, false, ◌||◌, Option, none, some, List, [], ◌∷◌, ◌==◌, if◌then◌else◌, swap16,
}
use tun2http.Os.{Os, Call, SocketKind, Address, stream, datagram, ping, at, named}
use tun2http.Session.{same_bytes}

-- `strstr(redirect->raddr, ":") == NULL ? 4 : 6`
unfoldable pub text_version : List ℕ → ℕ
text_version [] = 4
text_version (c ∷ text) = if c == b':' then 6 else text_version text

-- The ports that go to the proxy.
abbrev pub is_proxied : ℕ → Bool
is_proxied dest = swap16 dest == 80 || swap16 dest == 443

-- The first byte of an IPv6 address is 0xFF.
abbrev pub is_group : List ℕ → Bool
is_group [] = false
is_group (b ∷ rest) = b == 255

module _ (os : Os) where
  -- Whether the socket could be kept out of the tunnel.
  unfoldable pub protect_socket : ℕ → List Call → Bool × List Call
  protect_socket k log = (os.protect log k, Call.protect k ∷ log)

  -- The address that a TCP session's socket is connected to, and its version.
  unfoldable pub target_of : ℕ → ℕ → List ℕ → ℕ × Address
  target_of version dest daddr =
      if is_proxied dest
      then (text_version os.proxy_ip, named os.proxy_ip (swap16 os.proxy_port))
      else (version, at daddr dest)

  -- A new socket, protected.
  unfoldable pub protected : SocketKind → ℕ → List Call → Option ℕ × List Call
  protected kind version log =
      let log' : List Call = Call.socket kind version ∷ log in
      elim (os.socket log) [
        | none ↦ (none, log')
        | some k ↦ (if (protect_socket k log').0 then some k else none, (protect_socket k log').1)
      ]

  abbrev pub connecting : ℕ → Address → List Call → Option ℕ × List Call
  connecting k target log =
      let set : List Call = Call.set_nonblock k ∷ log in
      if os.nonblock_fails log k
      then (none, set)
      else (if os.connect_fails set k then none else some k, Call.connect k target ∷ set)

  unfoldable pub open_tcp_socket : ℕ → ℕ → List ℕ → List Call → Option ℕ × List Call
  unfolding protected protect_socket target_of text_version
  open_tcp_socket version dest daddr log =
      let target : ℕ × Address = target_of version dest daddr in
      let made : Option ℕ × List Call = protected stream target.0 log in
      elim made.0 [ none ↦ (none, made.1) | some k ↦ connecting k target.1 made.1 ]

  -- Whether a datagram goes to all, or to a group, and the options that are set for it; that this may
  -- fail is only logged.
  abbrev pub widened : ℕ → ℕ → List ℕ → List Call → List Call
  widened k version daddr log =
      if version == 4
      then if same_bytes daddr (255 ∷ 255 ∷ 255 ∷ 255 ∷ []) then Call.set_broadcast k ∷ log else log
      else if is_group daddr
      then Call.set_multicast k ∷ Call.set_multicast k ∷ Call.set_multicast k ∷ log
      else log

  unfoldable pub open_udp_socket : ℕ → List ℕ → List Call → Option ℕ × List Call
  unfolding protected protect_socket
  open_udp_socket version daddr log =
      let made : Option ℕ × List Call = protected datagram version log in
      elim made.0 [ none ↦ (none, made.1) | some k ↦ (some k, widened k version daddr made.1) ]

  unfoldable pub open_icmp_socket : ℕ → List Call → Option ℕ × List Call
  unfolding protected protect_socket
  open_icmp_socket version log = protected ping version log
