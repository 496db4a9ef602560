-- ===== src/Session.antt =====
-- android_app/app/src/main/cpp/tun2http.h: the session records and the list of sessions. An address
-- is the list of its bytes as they stand in the packet, 4 or 16 of them. A port is the `__be16`
-- field as a little-endian host reads it.
pub mod Bytes
pub mod Leaves
use tun2http.Prelude.{ℕ, Bool, false, true, ◌&&◌, Option, none, some, List, [], ◌∷◌, ◌==◌}
use tun2http.Os.{Events, Call}

pub record Segment : Type 0 where
  pub seq : ℕ
  pub len : ℕ
  pub sent : ℕ
  pub psh : Bool
  pub bytes : List ℕ

pub data TcpState : Type 0 where
  established syn_sent syn_recv fin_wait1 fin_wait2 time_wait close close_wait last_ack : TcpState
  listen closing : TcpState

pub data ConnectState : Type 0 where
  connect_not_sent connect_sent connect_established : ConnectState

pub data UdpState : Type 0 where
  udp_active udp_finishing udp_closed udp_blocked : UdpState

-- The values of netinet/tcp.h.
abbrev pub state_code : TcpState → ℕ
state_code TcpState.established = 1
state_code TcpState.syn_sent = 2
state_code TcpState.syn_recv = 3
state_code TcpState.fin_wait1 = 4
state_code TcpState.fin_wait2 = 5
state_code TcpState.time_wait = 6
state_code TcpState.close = 7
state_code TcpState.close_wait = 8
state_code TcpState.last_ack = 9
state_code TcpState.listen = 10
state_code TcpState.closing = 11

abbrev pub connect_code : ConnectState → ℕ
connect_code ConnectState.connect_not_sent = 2
connect_code ConnectState.connect_sent = 0
connect_code ConnectState.connect_established = 1

abbrev pub udp_code : UdpState → ℕ
udp_code UdpState.udp_active = 0
udp_code UdpState.udp_finishing = 1
udp_code UdpState.udp_closed = 2
udp_code UdpState.udp_blocked = 3

-- The tests on a state.
abbrev pub in_state : TcpState → TcpState → Bool
in_state s t = state_code s == state_code t

abbrev pub in_connect : ConnectState → ConnectState → Bool
in_connect s t = connect_code s == connect_code t

abbrev pub in_udp : UdpState → UdpState → Bool
in_udp s t = udp_code s == udp_code t

pub record IcmpSession : Type 0 where
  pub time : ℕ
  pub version : ℕ
  pub saddr : List ℕ
  pub daddr : List ℕ
  pub id : ℕ
  pub stop : Bool

pub record UdpSession : Type 0 where
  pub time : ℕ
  pub version : ℕ
  pub mss : ℕ
  pub sent : ℕ
  pub received : ℕ
  pub saddr : List ℕ
  pub source : ℕ
  pub daddr : List ℕ
  pub dest : ℕ
  pub state : UdpState

pub record TcpSession : Type 0 where
  pub time : ℕ
  pub version : ℕ
  pub mss : ℕ
  pub recv_scale : ℕ
  pub send_scale : ℕ
  pub recv_window : ℕ
  pub send_window : ℕ
  pub remote_seq : ℕ
  pub local_seq : ℕ
  pub remote_start : ℕ
  pub local_start : ℕ
  pub acked : ℕ
  pub last_keep_alive : ℕ
  pub sent : ℕ
  pub received : ℕ
  pub saddr : List ℕ
  pub source : ℕ
  pub daddr : List ℕ
  pub dest : ℕ
  pub state : TcpState
  pub forward : List Segment
  pub hostname : List ℕ
  pub connect_sent : ConnectState

-- `struct ng_session` for each member of its union; `none` is a socket of -1.
pub record IcmpNode : Type 0 where
  pub icmp : IcmpSession
  pub open icmp use *
  pub socket : Option ℕ
  pub events : Events

pub record UdpNode : Type 0 where
  pub udp : UdpSession
  pub open udp use *
  pub socket : Option ℕ
  pub events : Events

pub record TcpNode : Type 0 where
  pub tcp : TcpSession
  pub open tcp use *
  pub socket : Option ℕ
  pub events : Events

pub data NgSession : Type 0 where
  icmp_session : IcmpNode → NgSession
  udp_session : UdpNode → NgSession
  tcp_session : TcpNode → NgSession

abbrev pub has_socket : Option ℕ → Bool
has_socket none = false
has_socket (some k) = true

-- Equality of addresses, `==` on `ip4` and `memcmp` on `ip6`.
abbrev pub same_bytes : List ℕ → List ℕ → Bool
same_bytes [] [] = true
same_bytes [] (y ∷ ys) = false
same_bytes (x ∷ xs) [] = false
same_bytes (x ∷ xs) (y ∷ ys) = x == y && same_bytes xs ys

-- What became of a packet: the sessions and the log, or a handler that does not come back or uses
-- memory outside its buffers.
pub data Handled : Type 0 where
  handled : List NgSession → List Call → Handled
  hung : Handled
