-- ===== src/Tests/Connect.antt =====
-- The theorem on the ClientHello that opens a session for port 443.
use tun2http.Prelude.{false, ◌≡◌, refl, [], ◌∷◌}
use tun2http.Os.{Call}
use tun2http.Session.{TcpState, ConnectState}
use tun2http.Tls.Hello.{encode_hello}
use tun2http.Tcp.Header.{TcpPacket}
use tun2http.Tcp.Queue.{queue_tcp}
use tun2http.Tcp.Socket.{set_tcp}
use tun2http.Tcp.Handle.{handle_tcp_known}
use tun2http.Tcp.Handle.Connect.{tunnel_request, handle_tcp_known-connect}
use tun2http.Tests.Data.{os_example, name_example, packet_example, node_example}
use tun2http.Tests.Parsers.{hello_example, hello_example-FitsHello}

-- 443 in network order.
abbrev hello_packet : TcpPacket
hello_packet = record packet_example { dest = 47873; payload = encode_hello hello_example (9 ∷ []) }

handle_tcp_known-connect_example :
    handle_tcp_known os_example name_example hello_packet node_example [] ≡ (
      set_tcp node_example (
          queue_tcp hello_packet.seq hello_packet.psh hello_packet.payload
            (record (node_example.tcp) {
              hostname = hello_example.name;
              connect_sent = ConnectState.connect_sent;
              state = TcpState.listen;
            })),
      Call.send (node_example.socket) (tunnel_request hello_example.name) false ∷ [],
    )
handle_tcp_known-connect_example =
    handle_tcp_known-connect os_example name_example hello_example (9 ∷ []) hello_packet
      node_example [] 28 hello_example-FitsHello refl refl refl refl
