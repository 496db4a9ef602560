-- ===== src/Udp/Check.antt =====
-- android_app/app/src/main/cpp/udp.c: `check_udp_session`, the periodic check, and
-- `check_udp_socket`, which runs when the socket is ready. `fuel` is that of the loops of dns.c,
-- `beyond` what stands in memory behind the bytes received. The 64-bit byte counts do not wrap.
pub mod Life
use tun2http.Prelude.{
  ℕ, ◌+◌, Bool, true, false, not, ◌&&◌, ◌||◌, Option, none, some, List, [], ◌∷◌, ltb, ◌==◌,
  if◌then◌else◌, swap16, length, ℤ, pos, ◌+ℤ◌, ltb_ℤ, scale_ℤ,
}
use tun2http.Os.{Os, Call, Events, Received}
use tun2http.Session.{UdpSession, UdpNode, UdpState, in_udp}
use tun2http.Tcp.Window.{sessions_scale}
use tun2http.Dns.{byte_at, Parsed, parsed, parse_unfinished, parse_dns_response}
use tun2http.Udp.Write.{write_udp}

abbrev udp_keep_timeout : ℕ
udp_keep_timeout = 60

abbrev pub is_dns : UdpSession → Bool
is_dns u = swap16 u.dest == 53

-- UDP_TIMEOUT_53 and UDP_TIMEOUT_ANY.
abbrev udp_timeout : UdpSession → ℕ
udp_timeout u = if is_dns u then 15 else 300

unfoldable pub get_udp_timeout : UdpSession → ℕ → ℕ → ℤ
get_udp_timeout u sessions maxsessions =
    scale_ℤ (udp_timeout u) (sessions_scale sessions maxsessions) 100

abbrev pub set_udp : UdpNode → UdpSession → UdpNode
set_udp s cur = record s { udp = cur }

abbrev pub finishing : UdpSession → UdpSession
finishing cur = record cur { state = UdpState.udp_finishing }

-- A session that was silent for longer than its timeout is to finish.
unfoldable pub expire_udp : UdpNode → ℤ → ℕ → UdpNode
unfolding ◌+ℤ◌
expire_udp s timeout now =
    if in_udp s.state UdpState.udp_active && ltb_ℤ (pos s.time +ℤ timeout) (pos now)
    then set_udp s (finishing s.udp)
    else s

-- A closed session forgets what it carried.
unfoldable pub reset_udp_usage : UdpNode → UdpNode
reset_udp_usage s =
    if in_udp s.state UdpState.udp_closed && (not (s.sent == 0) || not (s.received == 0))
    then set_udp s (record (s.udp) { sent = 0; received = 0 })
    else s

module _ (os : Os) where
  -- A session that finishes closes its socket.
  unfoldable pub close_udp : UdpNode → List Call → UdpNode × List Call
  close_udp s log =
      let log' = Call.close s.socket ∷ log in
      if in_udp s.state UdpState.udp_finishing
      then (
        record s {
          udp = record (s.udp) { time = os.time log'; state = UdpState.udp_closed };
          socket = none;
        },
        Call.time ∷ log',
      )
      else (s, log)

  -- The answer is whether the session is to be deleted.
  unfoldable pub check_udp_session : UdpNode → ℕ → ℕ → List Call → Bool × UdpNode × List Call
  check_udp_session s sessions maxsessions log =
      let now = os.time log in
      let closed =
        close_udp (expire_udp s (get_udp_timeout s.udp sessions maxsessions) now)
          (Call.time ∷ log) in
      let s' = reset_udp_usage closed.0 in
      (
        (in_udp s'.state UdpState.udp_closed || in_udp s'.state UdpState.udp_blocked)
            && ltb (s'.time + udp_keep_timeout) now,
        s',
        closed.1,
      )

-- A call that does not come back is `none`.
abbrev pub after_parse {ℓ} : {A : Type ℓ} → Parsed → A → Option A
after_parse parsed a = some a
after_parse parse_unfinished a = none

module _ (os : Os) (fuel : ℕ) (beyond : ℕ → ℕ) where
  -- An answer goes to the tun device; after an answer of a name server the session finishes.
  unfoldable pub udp_answer : UdpNode → List ℕ → List Call → Option (UdpNode × List Call)
  udp_answer s bytes log =
      let cur = record (s.udp) { received = s.received + length bytes } in
      let (ok, log') = write_udp os cur bytes log in
      let done : UdpNode × List Call =
        (set_udp s (if not ok || is_dns cur then finishing cur else cur), log') in
      if is_dns cur
      then after_parse (parse_dns_response fuel (byte_at bytes beyond) (length bytes)) done
      else some done

  abbrev pub udp_received : UdpNode → Received → List Call → Option (UdpNode × List Call)
  udp_received s (Received.failed retry) log =
      some (if retry then s else set_udp s (finishing s.udp), log)
  udp_received s (Received.bytes []) log = some (set_udp s (finishing s.udp), log)
  udp_received s (Received.bytes (b ∷ bytes)) log = udp_answer s (b ∷ bytes) log

  unfoldable pub check_udp_socket : UdpNode → Events → List Call → Option (UdpNode × List Call)
  check_udp_socket s ev log =
      let s' = set_udp s (record (s.udp) { time = os.time log }) in
      let log' = Call.time ∷ log in
      if ev.epollerr
      then some (set_udp s' (finishing s'.udp), log')
      else if ev.epollin
      then udp_received s' (os.recv log' s.socket s.mss) (Call.recv s.socket s.mss ∷ log')
      else some (s, log)
