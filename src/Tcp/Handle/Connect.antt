-- ===== src/Tcp/Handle/Connect.antt =====
-- The first data for port 443: from the server name of a ClientHello to the request to the proxy.
use tun2http.Prelude.{ℕ, ◌≡◌, refl, ap, ◌∙◌, false, List, [], ◌∷◌, ◌++◌, arith}
use tun2http.Os.{Os, Call, Sent}
use tun2http.Session.{TcpNode, TcpState, ConnectState}
use tun2http.Tls.{server_name}
use tun2http.Tls.Hello.{ClientHello, FitsHello, encode_hello, parse_tls_header-encode_hello}
use tun2http.Tcp.Queue.{queue_tcp}
use tun2http.Tcp.Socket.{set_tcp}
use tun2http.Tcp.Header.{TcpPacket}
use tun2http.Tcp.Open.{remote_port}
use tun2http.Tcp.Handle.{send_connect, tcp_proxy, handle_tcp_known}

server_name-encode_hello :
    (h : ClientHello) → FitsHello h → (rest : List ℕ) → server_name (encode_hello h rest) ≡ h.name
unfolding server_name
server_name-encode_hello h fits rest =
    rw (server_name, parse_tls_header-encode_hello h fits rest) refl

-- The request of RFC 9110 for a tunnel to port 443 of a server, in ASCII: `CONNECT `, the name, and
-- `:443 HTTP/1.0` with an empty line.
abbrev pub tunnel_request : List ℕ → List ℕ
tunnel_request name =
    (67 ∷ 79 ∷ 78 ∷ 78 ∷ 69 ∷ 67 ∷ 84 ∷ 32 ∷ [])
    ++ (name
        ++ (58 ∷ 52 ∷ 52 ∷ 51 ∷ 32 ∷ 72 ∷ 84 ∷ 84 ∷ 80 ∷ 47 ∷ 49 ∷ 46 ∷ 48 ∷ 13 ∷ 10 ∷ 13 ∷ 10
            ∷ []))

-- When a packet to port 443, whose payload is a ClientHello that names its server, comes in for a
-- session that has sent no CONNECT, and the send succeeds, then the handler's one call sends
-- `CONNECT <name>:443 HTTP/1.0` and an empty line on the session's socket, and the session keeps the
-- name, waits for the proxy's answer in LISTEN, and gives the ClientHello to `queue_tcp`, which files
-- it unless its number is before `remote_seq`. This holds whatever the flags of the packet and the
-- state of the session.
pub handle_tcp_known-connect :
    (os : Os) (inet_ntoa : List ℕ → List ℕ) (h : ClientHello) (rest : List ℕ) (p : TcpPacket)
    (s : TcpNode) (log : List Call) (n : ℕ)
    → FitsHello h
    → p.payload ≡ encode_hello h rest
    → remote_port p ≡ 443
    → s.connect_sent ≡ ConnectState.connect_not_sent
    → os.send log s.socket (tunnel_request h.name) false ≡ Sent.sent n
    → handle_tcp_known os inet_ntoa p s log ≡ (
      set_tcp s (
          queue_tcp p.seq p.psh p.payload (record (s.tcp) {
            hostname = h.name;
            connect_sent = ConnectState.connect_sent;
            state = TcpState.listen;
          })),
      Call.send s.socket (tunnel_request h.name) false ∷ log,
    )
unfolding handle_tcp_known tcp_proxy send_connect
handle_tcp_known-connect os inet_ntoa h rest p s log n fits hello port first sent =
    let name : server_name p.payload ≡ h.name =
      ap server_name hello ∙ server_name-encode_hello h fits rest in
    let text = fits.name_ne_nil in ground (arith, name, sent)
