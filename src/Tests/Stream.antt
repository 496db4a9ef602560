-- ===== src/Tests/Stream.antt =====
-- The theorems on the stream that a session's socket is given.
use tun2http.Prelude.{Bool, ℕ, ◌≡◌, refl, false, some, List, [], ◌∷◌, ◌++◌, take, length, arith}
use tun2http.Os.{Call}
use tun2http.Session.{TcpSession, Segment, TcpNode}
use tun2http.Tcp.Queue.{queue_tcp, queue_segment}
use tun2http.Util.{compare_u32}
use tun2http.Tcp.Socket.{send_forward, check_tcp_socket, forward_data, clamp_sent, outgoing}
use tun2http.Tcp.Stream.{accepted, IsTaking, place}
use tun2http.Tcp.Stream.Handlers.{Relays, opened, packet, ready, Relays-accepted}
use tun2http.Tcp.Window.{get_receive_buffer}
use tun2http.Tcp.Header.{TcpPacket}
use tun2http.Tcp.Handle.{handle_tcp_known, matches_tcp, tcp_packet_in, tcp_control, tcp_current}
use tun2http.Tcp.Stream.Progress.{send_forward_all}
use tun2http.Http.{patch_with}
use tun2http.Http.Forward.{patch_with-Lengthens}
use tun2http.Tests.Data.{
  name_example, node_example, packet_example, events_example, os_example, patch_example,
  tcp_example, segment_example,
}

abbrev stream_example : List ℕ
stream_example = 1 ∷ 2 ∷ 3 ∷ 4 ∷ 5 ∷ 6 ∷ []

-- It expects 500, and has nothing queued.
abbrev first_node : TcpNode
first_node = record node_example { tcp = record tcp_example { forward = []; remote_seq = 500 } }

abbrev late_packet : TcpPacket
late_packet = record packet_example { seq = 502; payload = 3 ∷ 4 ∷ 5 ∷ 6 ∷ [] }

abbrev early_packet : TcpPacket
early_packet = record packet_example { seq = 500; payload = 1 ∷ 2 ∷ [] }

-- The last four bytes come first, then the first two; then the socket is ready.
abbrev late_run : TcpNode × List Call
late_run = handle_tcp_known os_example name_example late_packet first_node []

abbrev early_run : TcpNode × List Call
early_run = handle_tcp_known os_example name_example early_packet late_run.0 late_run.1

abbrev ready_run : TcpNode × List Call
ready_run = check_tcp_socket os_example patch_example early_run.0 events_example early_run.1

os_example-IsTaking : IsTaking os_example (some 7)
os_example-IsTaking log bytes more = (length bytes, refl, omega arith)

ready_run-Relays :
    Relays os_example name_example patch_example
      (some 7)
      stream_example
      500
      first_node
      []
      ready_run.0
      ready_run.1
unfolding matches_tcp handle_tcp_known tcp_packet_in tcp_control queue_tcp compare_u32 tcp_current
    queue_segment
ready_run-Relays =
    ready early_run.0 early_run.1 events_example
      (packet late_run.0 late_run.1 early_packet
        (packet first_node [] late_packet opened refl refl (omega arith) (omega arith) refl) refl
        refl (omega arith) (omega arith) refl)
      refl

-- The loop sends the whole stream.
relayed_in_full :
    accepted os_example
      (some 7)
      (forward_data os_example patch_example early_run.0 events_example early_run.1).2
    ≡ stream_example
unfolding accepted matches_tcp handle_tcp_known tcp_packet_in tcp_control queue_tcp compare_u32
    tcp_current queue_segment forward_data send_forward clamp_sent outgoing get_receive_buffer
relayed_in_full = refl

Relays-accepted_example :
    accepted os_example (some 7) ready_run.1
    ≡ accepted os_example (some 7) [] ++ take (place 500 ready_run.0.remote_seq) stream_example
Relays-accepted_example =
    Relays-accepted os_example name_example patch_example (some 7) stream_example 500
      os_example-IsTaking (omega arith) (omega arith) first_node ready_run.0 [] ready_run.1 refl
      refl refl refl ready_run-Relays

-- Two segments that follow one another, of which one byte is sent.
abbrev waiting_example : List Segment
waiting_example =
    segment_example
    ∷ record segment_example { seq = 504; len = 2; sent = 0; bytes = 5 ∷ 6 ∷ [] }
    ∷ []

-- A session for port 80.
abbrev http_session : TcpSession
http_session = record tcp_example { dest = 20480 }

abbrev http_run : Bool × TcpSession × List Call
http_run =
    send_forward os_example (patch_with (λ bytes at. 0)) (some 7) waiting_example http_session 100
      false []

send_forward_all_example : (http_run.1.forward ≡ []) × (http_run.1.sent ≡ 5)
send_forward_all_example =
    send_forward_all os_example (patch_with (λ bytes at. 0)) (some 7) (λ log bytes more. refl)
      (patch_with-Lengthens (λ bytes at. 0)) waiting_example http_session 100 false []
      (ground arith) (refl, (refl, tt)) (omega arith) (omega arith)
