-- ===== src/Tcp/Handle/Keys.antt =====
-- A packet finds its session by its addresses and ports, which no packet changes.
use tun2http.Prelude.{
  ℕ, ◌+◌, ◌*◌, ◌^◌, ◌≡◌, refl, Bool, true, false, Option, List, [], ◌∷◌, u32, sub32, arith,
  if◌then◌else◌, ◌==◌, Bool-cases, inl, inr,
}
use tun2http.Os.{Os, Call}
use tun2http.Session.{Segment, TcpSession, TcpNode}
use tun2http.Tcp.Queue.{queue_tcp}
use tun2http.Tcp.Write.{write_rst}
use tun2http.Tcp.Write.Reset.{write_rst_lem, write_ack_cases}
use tun2http.Tcp.Check.{head_ready}
use tun2http.Tcp.Socket.{set_tcp, send_forward, count_sent}
use tun2http.Tcp.Socket.Forward.{send_forward_round, sends, taken}
use tun2http.Tcp.Header.{TcpPacket}
use tun2http.Tcp.Open.{remote_port}
use tun2http.Tcp.Handle.{
  send_connect, tcp_fin, tcp_current, tcp_other_ack, tcp_control, tcp_packet_in, tcp_proxy,
  handle_tcp_known, connect_request,
}

-- What identifies a session.
pub record Key : Type 0 where
  pub version : ℕ
  pub source : ℕ
  pub dest : ℕ
  pub saddr : List ℕ
  pub daddr : List ℕ

abbrev pub key : TcpSession → Key
key cur = record {
  version = cur.version;
  source = cur.source;
  dest = cur.dest;
  saddr = cur.saddr;
  daddr = cur.daddr;
}

key-queue_tcp :
    (p : TcpPacket) (cur : TcpSession) → key (queue_tcp p.seq p.psh p.payload cur) ≡ key cur
unfolding queue_tcp
key-queue_tcp p cur = ground arith

module _ (os : Os) where
  key-write_rst : (cur : TcpSession) (log : List Call) → key (write_rst os cur log).0 ≡ key cur
  key-write_rst cur log = rw (write_rst_lem os cur log) refl

  key-tcp_current :
      (p : TcpPacket) (cur : TcpSession) (log : List Call)
      → key (tcp_current os p cur log).0 ≡ key cur
  unfolding tcp_current tcp_fin
  key-tcp_current p cur log =
      ground (arith, write_ack_cases os (record cur { remote_seq = u32 (cur.remote_seq + 1) }) log)

  key-tcp_other_ack :
      (p : TcpPacket) (s : TcpNode) (log : List Call)
      → key (tcp_other_ack os p s log).0.tcp ≡ key s.tcp
  unfolding tcp_other_ack
  key-tcp_other_ack p s log = ground (arith, key-write_rst s.tcp log)

  key-tcp_control :
      (p : TcpPacket) (s : TcpNode) (log : List Call)
      → key (tcp_control os p s log).0.tcp ≡ key s.tcp
  unfolding tcp_control
  key-tcp_control p s log = ground (arith, key-tcp_current p s.tcp log, key-tcp_other_ack p s log)

  key-tcp_packet_in :
      (p : TcpPacket) (s : TcpNode) (log : List Call)
      → key (tcp_packet_in os p s log).0.tcp ≡ key s.tcp
  unfolding tcp_packet_in
  key-tcp_packet_in p s log =
      let s' : TcpNode =
        set_tcp s (record (s.tcp) {
          time = os.time log;
          send_window = u32 (p.window * 2 ^ s.send_scale);
        }) in
      let queued : TcpNode = set_tcp s' (queue_tcp p.seq p.psh p.payload s'.tcp) in
      ground (
        arith,
        key-queue_tcp p s'.tcp,
        key-tcp_control p s' (Call.time ∷ log),
        key-write_rst s'.tcp (Call.time ∷ log),
        key-tcp_control p queued (Call.time ∷ log),
      )

  key-send_connect :
      (s : TcpNode) (name : List ℕ) (log : List Call)
      → key (send_connect os s name log).0.tcp ≡ key s.tcp
  unfolding send_connect
  key-send_connect s name log =
      ground
        (arith, key-write_rst s.tcp (Call.send s.socket (connect_request s.hostname) false ∷ log))

  module _ (inet_ntoa : List ℕ → List ℕ) where
    key-tcp_proxy :
        (p : TcpPacket) (s : TcpNode) (log : List Call)
        → key (tcp_proxy os inet_ntoa p s log).0.tcp ≡ key s.tcp
    unfolding tcp_proxy
    key-tcp_proxy p s log = key-send_connect _ _ log

    -- The addresses and ports of a session are not changed by any packet.
    pub key-handle_tcp_known :
        (p : TcpPacket) (s : TcpNode) (log : List Call)
        → key (handle_tcp_known os inet_ntoa p s log).0.tcp ≡ key s.tcp
    unfolding handle_tcp_known
    key-handle_tcp_known p s log =
        let proxied : TcpNode × List Call =
          if remote_port p == 443 then tcp_proxy os inet_ntoa p s log else (s, log) in
        let e : key proxied.0.tcp ≡ key s.tcp = ground (arith, key-tcp_proxy p s log) in
        ground (
          arith,
          key-queue_tcp p proxied.0.tcp,
          key-write_rst proxied.0.tcp proxied.1,
          key-tcp_packet_in p proxied.0 proxied.1,
        )

module _ (os : Os) (patch : List ℕ → Option (List ℕ)) where
  pub key-send_forward :
      (socket : Option ℕ) (q : List Segment) (cur : TcpSession) (size : ℕ) (fwd : Bool)
      (log : List Call)
      → key (send_forward os patch socket q cur size fwd log).1 ≡ key cur
  key-send_forward socket [] cur size fwd log = unfold send_forward in refl
  key-send_forward socket (q ∷ rest) cur size fwd log =
      let n : ℕ = taken os patch socket cur q log in
      let round = send_forward_round os patch socket q rest cur size fwd log in
      elim (Bool-cases (head_ready (q ∷ rest) cur.remote_seq size)) [
        | inr e ↦ rw (round, e) refl
        | inl e ↦ elim (Bool-cases (q.len == q.sent + n)) [
          | inl all ↦
              rw (round, e, all)
                (key-send_forward socket rest (count_sent cur q n) (sub32 size n) true
                  (sends os patch socket cur q ∷ log))
          | inr part ↦ rw (round, e, part) refl
        ]
      ]
