-- ===== src/Tcp/Open.antt =====
-- android_app/app/src/main/cpp/tcp.c: `handle_tcp` for a packet of no session. A SYN opens a session
-- with its socket, anything else is answered by a reset.
pub mod Start
use Prim.Native.Nat.{Ordering}
use tun2http.Prelude.{
  ℕ, suc, ◌+◌, ◌-◌, ◌*◌, ◌^◌, Bool, true, false, not, ◌&&◌, ◌||◌, Option, none, some, List, [], ◌∷◌,
  ◌++◌, ltb, ◌==◌, if◌then◌else◌, u32, swap16, length, take,
}
use tun2http.Util.{compare_u32}
use tun2http.Os.{Os, Call, Events, Sent}
use tun2http.Session.{
  Segment, TcpSession, TcpNode, TcpState, ConnectState, in_state, in_connect, same_bytes,
}
use tun2http.Packet.{get_default_mss}
use tun2http.Sockets.{open_tcp_socket}
use tun2http.Tcp.Queue.{queue_tcp, new_segment}
use tun2http.Tcp.Window.{get_receive_window}
use tun2http.Tcp.Write.{write_rst, write_ack}
use tun2http.Tcp.Check.{is_empty, is_closed}
use tun2http.Tcp.Socket.{set_tcp}
use tun2http.Tcp.Header.{TcpPacket, Decoded, decoded, fault, unfinished, decode_options}

abbrev pub remote_port : TcpPacket → ℕ
remote_port p = swap16 p.dest

-- The session of a SYN, before its socket. Its hostname is left unset until the first packet for
-- port 443 names it.
unfoldable pub tcp_session_of : TcpPacket → ℕ → ℕ → ℕ → ℕ → TcpSession
tcp_session_of p mss ws now isn = record {
  time = now;
  version = p.version;
  mss = mss;
  recv_scale = ws;
  send_scale = ws;
  recv_window = 0;
  send_window = u32 (p.window * 2 ^ ws);
  remote_seq = p.seq;
  local_seq = u32 isn;
  remote_start = p.seq;
  local_start = u32 isn;
  acked = 0;
  last_keep_alive = 0;
  sent = 0;
  received = 0;
  saddr = p.saddr;
  source = p.source;
  daddr = p.daddr;
  dest = p.dest;
  state = TcpState.listen;
  forward = if length p.payload == 0 then [] else new_segment p.seq p.psh p.payload ∷ [];
  hostname = [];
  connect_sent =
      if remote_port p == 80
      then ConnectState.connect_established
      else ConnectState.connect_not_sent;
}

-- `stuck` is the loop over the options that does not end, or reads outside the buffer.
pub data Opened : Type 0 where
  opened : TcpNode → List Call → Opened
  refused : List Call → Opened
  stuck : Opened

-- The session that a reset for an unknown session is written from: zeros but for what is set. Its
-- version is 4 and so are the bytes of its addresses that are read. Its state 0 is none of the
-- enumeration; SYN_SENT stands for it, which is like it neither LISTEN nor CLOSE.
unfoldable pub rst_session : TcpPacket → TcpSession
rst_session p = record {
  time = 0;
  version = 4;
  mss = 0;
  recv_scale = 0;
  send_scale = 0;
  recv_window = 0;
  send_window = 0;
  remote_seq = u32 (p.seq + length p.payload + (if p.syn || p.fin then 1 else 0));
  local_seq = p.ack_seq;
  remote_start = 0;
  local_start = 0;
  acked = 0;
  last_keep_alive = 0;
  sent = 0;
  received = 0;
  saddr = take 4 p.saddr;
  source = p.source;
  daddr = take 4 p.daddr;
  dest = p.dest;
  state = TcpState.syn_sent;
  forward = [];
  hostname = [];
  connect_sent = ConnectState.connect_sent;
}

module _ (os : Os) where
  unfoldable pub start_tcp : TcpPacket → ℕ → ℕ → List Call → Opened
  start_tcp p mss ws log =
      let cur = tcp_session_of p mss ws (os.time log) (os.rand (Call.time ∷ log)) in
      let (made, log') =
        open_tcp_socket os cur.version cur.dest cur.daddr (Call.rand ∷ Call.time ∷ log) in
      let events : Events = record { epollin = false; epollout = true; epollerr = true } in
      elim made [
        | none ↦ refused log'
        | some k ↦
            let s : TcpNode = record { tcp = cur; socket = some k; events = events } in
            opened (set_tcp s (record cur { recv_window = get_receive_window os log' s }))
              (Call.epoll_add (some k) events ∷ log')
      ]

  abbrev pub start_decoded : TcpPacket → Decoded → List Call → Opened
  start_decoded p (decoded mss ws) log = start_tcp p mss ws log
  start_decoded p fault log = stuck
  start_decoded p unfinished log = stuck

  -- A packet of no session: a SYN opens one, any other is answered by a reset.
  unfoldable pub open_tcp : TcpPacket → List Call → Opened
  open_tcp p log =
      let mss = get_default_mss p.version in
      if p.syn
      then start_decoded p (decode_options p.optlen p.optlen p.options mss 0) log
      else refused (write_rst os (rst_session p) log).1
