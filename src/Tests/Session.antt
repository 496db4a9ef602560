-- ===== src/Tests/Session.antt =====
-- The theorems on the handlers of a session.
use Prim.Native.Nat.{Ordering}
use tun2http.Prelude.{
  ℕ, zero, suc, take, ◌+ℤ◌, ◌≤◌, ◌≡◌, ◌≢◌, refl, true, false, some, none, List, [], ◌∷◌, length,
  arith,
}
use tun2http.Util.{compare_u32}
use tun2http.Os.{Call}
use tun2http.Os.Closes.{GivenBack}
use tun2http.Session.{TcpNode, TcpState}
use tun2http.Tcp.Invariant.{IsSound}
use tun2http.Tcp.Check.{check_tcp_session, expire_tcp, close_tcp, reset_usage}
use tun2http.Tcp.Check.Life.{is_idle, check_tcp_session_expires}
use tun2http.Tcp.Window.{get_tcp_timeout, base_timeout}
use tun2http.Tcp.Socket.{send_forward, check_tcp_socket, tcp_socket_read}
use tun2http.Tcp.Socket.Forward.{IsForwarded, send_forward-IsForwarded}
use tun2http.Tcp.Socket.Receive.{InWindow, RecvFits, tcp_socket_read-InWindow}
use tun2http.Tcp.Header.{decode_options, next_mss, next_scale, FitsPacket}
use tun2http.Sockets.{open_tcp_socket}
use tun2http.Tcp.Open.{Opened, opened, refused, stuck, start_tcp, open_tcp}
use tun2http.Tcp.Handle.{handle_tcp_known}
use tun2http.Tcp.Handle.States.{packet_moves, handle_tcp_known_moves}
use tun2http.Tcp.Machine.{Reachable, fresh, next, packet, socket}
use tun2http.Tcp.Machine.Moves.{socket_moves, check_tcp_socket_moves}
use tun2http.Tcp.Machine.Reach.{Reachable-IsSound}
use tun2http.Tests.Data.{
  os_example, patch_example, name_example, events_example, segment_example, tcp_example,
  node_example, closed_example, packet_example, syn_example,
}

pub node_example-IsSound : IsSound node_example
node_example-IsSound = record {
  session = record {
    queue = record { segments = ground arith; ordered = ground arith };
    remote_fits = omega arith;
    local_fits = omega arith;
  };
  released = λ h. ground arith;
}

pub closed_example-IsSound : IsSound closed_example
closed_example-IsSound = record {
  session = record {
    queue = record { segments = ground arith; ordered = ground arith };
    remote_fits = omega arith;
    local_fits = omega arith;
  };
  released = λ h. refl;
}

packet_example-FitsPacket : FitsPacket packet_example
packet_example-FitsPacket = record { seq_fits = omega arith; payload_fits = omega arith }

pub syn_example-FitsPacket : FitsPacket syn_example
syn_example-FitsPacket = record { seq_fits = omega arith; payload_fits = omega arith }

abbrev opened_node : Opened → TcpNode
opened_node (opened s log) = s
opened_node (refused log) = node_example
opened_node stuck = node_example

abbrev opened_log : Opened → List Call
opened_log (opened s log) = log
opened_log (refused log) = log
opened_log stuck = []

-- The session that the SYN opens.
abbrev pub syn_node : TcpNode
syn_node = opened_node (open_tcp os_example syn_example [])

abbrev pub syn_log : List Call
syn_log = opened_log (open_tcp os_example syn_example [])

syn_opens : open_tcp os_example syn_example [] ≡ opened syn_node syn_log
unfolding open_tcp start_tcp open_tcp_socket decode_options next_mss next_scale
syn_opens = refl

-- After the SYN, the socket's connect and a packet.
abbrev connected_node : TcpNode
connected_node = (check_tcp_socket os_example patch_example syn_node events_example syn_log).0

abbrev later_node : TcpNode
later_node = (handle_tcp_known os_example name_example packet_example connected_node []).0

syn_node-Reachable : Reachable os_example patch_example name_example syn_node
syn_node-Reachable = fresh syn_example syn_node [] syn_log syn_example-FitsPacket syn_opens

later_node-Reachable : Reachable os_example patch_example name_example later_node
later_node-Reachable =
    next connected_node later_node []
      (next syn_node connected_node syn_log syn_node-Reachable (socket events_example))
      (packet packet_example packet_example-FitsPacket)

Reachable-IsSound_example : IsSound later_node
Reachable-IsSound_example =
    Reachable-IsSound os_example patch_example name_example later_node later_node-Reachable

handle_tcp_known_moves_example :
    packet_moves TcpState.established
      (handle_tcp_known os_example name_example packet_example node_example []).0.state
    ≡ true
handle_tcp_known_moves_example =
    handle_tcp_known_moves os_example name_example packet_example node_example [] refl

check_tcp_socket_moves_example :
    socket_moves TcpState.established
      (check_tcp_socket os_example patch_example node_example events_example []).0.state
    ≡ true
check_tcp_socket_moves_example =
    check_tcp_socket_moves os_example patch_example node_example events_example []
      node_example-IsSound

send_forward-IsForwarded_example :
    IsForwarded tcp_example
      (send_forward os_example patch_example
        (some 7)
        (segment_example ∷ [])
        tcp_example
        9000
        false
        []).1
send_forward-IsForwarded_example =
    send_forward-IsForwarded os_example patch_example (some 7) (segment_example ∷ []) tcp_example
      9000 false [] (ground arith) (ground arith) (omega arith)

length-take_le : (n : ℕ) (xs : List ℕ) → length (take n xs) ≤ n
length-take_le zero xs = ground arith
length-take_le (suc n) [] = ground arith
length-take_le (suc n) (x ∷ xs) = ground (arith, length-take_le n xs)

-- `recv` of the example returns at most what was asked for.
recv_fits : RecvFits os_example
recv_fits log k size bytes e = ground (arith, length-take_le size (1 ∷ 2 ∷ 3 ∷ []), e)

behind : compare_u32 101 101 ≢ Ordering.gt
unfolding compare_u32
behind = ground arith

tcp_socket_read-InWindow_example :
    InWindow (tcp_socket_read os_example node_example events_example []).0.tcp
tcp_socket_read-InWindow_example =
    tcp_socket_read-InWindow os_example node_example events_example [] recv_fits behind (record {
      local_fits = omega arith;
      acked_fits = omega arith;
      window_fits = omega arith;
      within = omega arith;
    })

deleted : (check_tcp_session os_example closed_example 3 100 []).0 ≡ true
unfolding check_tcp_session expire_tcp close_tcp reset_usage
deleted = refl

idle : is_idle os_example node_example 100 100 1000 ≡ true
unfolding get_tcp_timeout ◌+ℤ◌ base_timeout
idle = refl

busy : is_idle os_example node_example 3 100 1000 ≡ false
unfolding get_tcp_timeout ◌+ℤ◌ base_timeout
busy = refl

check_tcp_session_expires_example :
    ((check_tcp_session os_example node_example 100 100 []).1.state ≡ TcpState.close)
    × ((check_tcp_session os_example node_example 100 100 []).1.socket ≡ none)
    × GivenBack (some 7) [] (check_tcp_session os_example node_example 100 100 []).2
check_tcp_session_expires_example =
    check_tcp_session_expires os_example node_example 100 100 [] refl idle
