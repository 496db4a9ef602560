-- ===== src/Tcp/Stream/Packet.antt =====
-- What a packet does besides filing its data leaves the queue, `remote_seq` and what the socket was
-- given as they are.
use tun2http.Prelude.{
  ℕ, ◌^◌, ◌*◌, ◌≡◌, ◌⊎◌, refl, ap, ◌∙◌, Bool, true, false, not, ◌&&◌, ◌||◌, Option, List, ◌∷◌, ◌==◌,
  if◌then◌else◌, u32, length, arith, Bool-cases, inl, inr,
}
use tun2http.Os.{Os, Call}
use tun2http.Session.{TcpSession, TcpNode, TcpState, ConnectState, in_state, in_connect, has_socket}
use tun2http.Tcp.Write.{write_rst}
use tun2http.Tcp.Check.{is_closed}
use tun2http.Tcp.Queue.{queue_tcp}
use tun2http.Tcp.Header.{TcpPacket}
use tun2http.Tcp.Open.{remote_port}
use tun2http.Tcp.Socket.{set_tcp}
use tun2http.Tcp.Handle.{
  tcp_current, tcp_other_ack, tcp_control, tcp_packet_in, tcp_proxy, send_connect, handle_tcp_known,
}
use tun2http.Util.{c_string}
use tun2http.Tls.{server_name}
use tun2http.Tcp.Stream.Flows.{flows, flows-write_rst, flows-tcp_packet_in}
use tun2http.Tcp.Stream.{accepted}
use tun2http.Tcp.Stream.Quiet.{feed, feed-write_rst}

state-queue_tcp :
    (seq : ℕ) (psh : Bool) (bytes : List ℕ) (cur : TcpSession)
    → (queue_tcp seq psh bytes cur).state ≡ cur.state
unfolding queue_tcp
state-queue_tcp seq psh bytes cur = ground arith

-- What `handle_tcp` does behind its dealings with the proxy.
abbrev open_packet : Os → TcpPacket → TcpNode → List Call → TcpNode × List Call
open_packet os p s log =
    if is_closed s.state
    then (set_tcp s (write_rst os s.tcp log).0, (write_rst os s.tcp log).1)
    else tcp_packet_in os p s log

module _ (os : Os) (socket : Option ℕ) where
  feed-tcp_current :
      (p : TcpPacket) (cur : TcpSession) (log : List Call)
      → p.fin ≡ false
      → feed os socket (tcp_current os p cur log).0 (tcp_current os p cur log).1
        ≡ feed os socket cur log
  unfolding tcp_current
  feed-tcp_current p cur log no_fin = ground arith

  feed-tcp_other_ack :
      (p : TcpPacket) (s : TcpNode) (log : List Call)
      → in_state s.state TcpState.listen ≡ false
      → feed os socket (tcp_other_ack os p s log).0.tcp (tcp_other_ack os p s log).1
        ≡ feed os socket s.tcp log
  unfolding tcp_other_ack accepted
  feed-tcp_other_ack p s log up = ground (arith, feed-write_rst os socket s.tcp log up)

  feed-tcp_control :
      (p : TcpPacket) (s : TcpNode) (log : List Call)
      → p.fin ≡ false
      → in_state s.state TcpState.listen ≡ false
      → feed os socket (tcp_control os p s log).0.tcp (tcp_control os p s log).1
        ≡ feed os socket s.tcp log
  unfolding tcp_control
  feed-tcp_control p s log no_fin up =
      ground (arith, feed-tcp_current p s.tcp log no_fin, feed-tcp_other_ack p s log up)

  -- A packet files its data or does nothing of the kind.
  abbrev pub FilesOnly : TcpPacket → TcpSession → List Call → TcpSession → List Call → Type 0
  FilesOnly p cur log next log' =
      (feed os socket next log' ≡ feed os socket cur log)
      ⊎ (feed os socket next log' ≡ feed os socket (queue_tcp p.seq p.psh p.payload cur) log)

  feed-queue_tcp :
      (seq : ℕ) (psh : Bool) (bytes : List ℕ) (cur next : TcpSession) (log log' : List Call)
      → feed os socket next log' ≡ feed os socket cur log
      → feed os socket (queue_tcp seq psh bytes next) log'
        ≡ feed os socket (queue_tcp seq psh bytes cur) log
  unfolding queue_tcp
  feed-queue_tcp seq psh bytes cur next log log' e =
      let e_forward : next.forward ≡ cur.forward = ap (λ f. f.0) e in
      let e_seq : next.remote_seq ≡ cur.remote_seq = ap (λ f. f.1) e in
      let e_given : accepted os socket log' ≡ accepted os socket log = ap (λ f. f.2) e in
      ground arith

  feed-tcp_packet_in :
      (p : TcpPacket) (s : TcpNode) (log : List Call)
      → p.fin ≡ false
      → in_state s.state TcpState.listen ≡ false
      → FilesOnly p s.tcp log (tcp_packet_in os p s log).0.tcp (tcp_packet_in os p s log).1
  unfolding tcp_packet_in accepted
  feed-tcp_packet_in p s log no_fin up =
      let s' : TcpNode =
        set_tcp s (record (s.tcp) {
          time = os.time log;
          send_window = u32 (p.window * 2 ^ s.send_scale);
        }) in
      let log' : List Call = Call.time ∷ log in
      let queued : TcpSession = queue_tcp p.seq p.psh p.payload s'.tcp in
      elim (Bool-cases (length p.payload == 0)) [
        | inl e ↦ inl (rw e (feed-tcp_control p s' log' no_fin up))
        | inr e ↦
            elim (Bool-cases (not (has_socket s.socket) || in_state s.state TcpState.close_wait)) [
              | inl e' ↦ inl (rw (e, e') (feed-write_rst os socket s'.tcp log' up))
              | inr e' ↦ inr (
                  rw (e, e')
                    (feed-tcp_control p (set_tcp s' queued) log' no_fin
                        (rw (state-queue_tcp p.seq p.psh p.payload s'.tcp) up)
                      ∙ feed-queue_tcp p.seq p.psh p.payload s.tcp s'.tcp log log' refl))
            ]
      ]

  send_connect_done :
      (s : TcpNode) (name : List ℕ) (log : List Call)
      → in_connect s.connect_sent ConnectState.connect_established ≡ true
      → send_connect os s name log ≡ (s, log)
  unfolding send_connect
  send_connect_done s name log proxied = ground arith

  feed-open_packet :
      (p : TcpPacket) (s : TcpNode) (log : List Call)
      → p.fin ≡ false
      → in_state s.state TcpState.listen ≡ false
      → FilesOnly p s.tcp log (open_packet os p s log).0.tcp (open_packet os p s log).1
  feed-open_packet p s log no_fin up = elim (Bool-cases (is_closed s.state)) [
    | inl e ↦ inl (rw e (feed-write_rst os socket s.tcp log up))
    | inr e ↦ rw e (feed-tcp_packet_in p s log no_fin up)
  ]

  flows-open_packet :
      (p : TcpPacket) (s : TcpNode) (log : List Call)
      → p.fin ≡ false
      → flows s.tcp ≡ true
      → flows (open_packet os p s log).0.tcp ≡ true
  flows-open_packet p s log no_fin h =
      ground (arith, flows-write_rst os s.tcp log h, flows-tcp_packet_in os p s log no_fin h)

  module _ (inet_ntoa : List ℕ → List ℕ) (p : TcpPacket) (s : TcpNode) (log : List Call) where
    -- Off port 443, and once the proxy has answered, a packet changes the name at most before it is handled.
    handle_tcp_known_open :
        (remote_port p == 443 && not (in_connect s.connect_sent ConnectState.connect_established))
          ≡ false
        → (host : List ℕ) × (handle_tcp_known os inet_ntoa p s log
            ≡ open_packet os p (set_tcp s (record (s.tcp) { hostname = host })) log)
    unfolding handle_tcp_known tcp_proxy
    handle_tcp_known_open other =
        let name = server_name p.payload in
        let found = if length name == 0 then c_string (inet_ntoa s.daddr) else name in
        let host = if length found == 0 then s.hostname else found in
        let s' : TcpNode = set_tcp s (record (s.tcp) { hostname = host }) in
        elim (Bool-cases (remote_port p == 443)) [
          | inl e ↦
              let proxied : in_connect s.connect_sent ConnectState.connect_established ≡ true =
                ground arith in
              (host, rw (e, send_connect_done s' found log proxied, proxied) refl)
          | inr e ↦ (s.hostname, rw e refl)
        ]

    -- A packet without FIN files its data, or none, and changes the stream in no other way.
    pub feed-handle_tcp_known :
        p.dest ≡ s.dest
        → p.fin ≡ false
        → flows s.tcp ≡ true
        → FilesOnly p s.tcp log
            (handle_tcp_known os inet_ntoa p s log).0.tcp
            (handle_tcp_known os inet_ntoa p s log).1
    feed-handle_tcp_known here no_fin h =
        let (host, e) = handle_tcp_known_open (ground arith) in
        let s' : TcpNode = set_tcp s (record (s.tcp) { hostname = host }) in
        elim (feed-open_packet p s' log no_fin (ground arith)) [
          | inl kept ↦ inl (rw e kept)
          | inr filed ↦
              inr (rw e (filed ∙ feed-queue_tcp p.seq p.psh p.payload s.tcp s'.tcp log log refl))
        ]

    pub flows-handle_tcp_known :
        p.dest ≡ s.dest
        → p.fin ≡ false
        → flows s.tcp ≡ true
        → flows (handle_tcp_known os inet_ntoa p s log).0.tcp ≡ true
    flows-handle_tcp_known here no_fin h =
        let (host, e) = handle_tcp_known_open (ground arith) in
        rw e (flows-open_packet p (set_tcp s (record (s.tcp) { hostname = host })) log no_fin h)
