-- ===== src/Tests/Data.antt =====
-- The environment, the sessions and the packets of the tests.
use tun2http.Prelude.{ℕ, true, false, Option, none, some, List, [], ◌∷◌, length, take}
use tun2http.Os.{Os, Events, Sent, Received, Ready, Polled}
use tun2http.Session.{
  Segment, TcpSession, UdpSession, TcpNode, UdpNode, IcmpNode, NgSession, TcpState, ConnectState,
  UdpState,
}
use tun2http.Tcp.Header.{TcpPacket}

-- Everything succeeds.
abbrev pub os_example : Os
os_example = record {
  time = λ log. 1000;
  get_ms = λ log. 5000;
  tun_write = λ log packet. some (length packet);
  send = λ log socket bytes more. Sent.sent (length bytes);
  sendto = λ log socket bytes. Sent.sent (length bytes);
  recv = λ log socket size. Received.bytes (take size (1 ∷ 2 ∷ 3 ∷ []));
  epoll_mod = λ log socket events. false;
  sndbuf = λ log socket. some 65536;
  outq = λ log socket. some 0;
  socket = λ log. some 7;
  protect = λ log k. true;
  nonblock_fails = λ log k. false;
  connect_fails = λ log k. false;
  proxy_ip = b'1' ∷ b'0' ∷ b'.' ∷ b'0' ∷ b'.' ∷ b'0' ∷ b'.' ∷ b'9' ∷ [];
  proxy_port = 8080;
  rand = λ log. 100;
  tun_read = λ log. Received.bytes [];
  errno_again = λ log. false;
  tun_readable = λ log. false;
  readable = λ log socket. false;
  setup_fails = λ log. false;
  create_thread = λ log. some 5;
  pipe_write_fails = λ log. false;
  epoll_wait = λ log ms. Polled.ready (Ready.pipe_ready ∷ []);
}

-- Sending fails.
abbrev pub os_failing : Os
os_failing = record os_example { send = λ log socket bytes more. Sent.failed true }

abbrev pub patch_example : List ℕ → Option (List ℕ)
patch_example bytes = none

abbrev pub name_example : List ℕ → List ℕ
name_example bytes = b'a' ∷ b'b' ∷ []

abbrev pub events_example : Events
events_example = record { epollin = true; epollout = true; epollerr = false }

abbrev pub segment_example : Segment
segment_example = record { seq = 501; len = 3; sent = 1; psh = true; bytes = 7 ∷ 8 ∷ 9 ∷ [] }

abbrev pub tcp_example : TcpSession
tcp_example = record {
  time = 990;
  version = 4;
  mss = 1400;
  recv_scale = 2;
  send_scale = 2;
  recv_window = 8192;
  send_window = 4096;
  remote_seq = 502;
  local_seq = 101;
  remote_start = 500;
  local_start = 100;
  acked = 101;
  last_keep_alive = 0;
  sent = 1;
  received = 0;
  saddr = 10 ∷ 0 ∷ 0 ∷ 2 ∷ [];
  source = 4660;
  daddr = 93 ∷ 184 ∷ 216 ∷ 34 ∷ [];
  dest = 36895;
  state = TcpState.established;
  forward = segment_example ∷ [];
  hostname = [];
  connect_sent = ConnectState.connect_not_sent;
}

abbrev pub node_example : TcpNode
node_example = record { tcp = tcp_example; socket = some 7; events = events_example }

-- One that waits for its socket.
abbrev pub listening_example : TcpNode
listening_example = record node_example {
  tcp = record tcp_example { state = TcpState.listen; forward = [] };
}

abbrev pub closed_example : TcpNode
closed_example = record node_example {
  tcp = record tcp_example { state = TcpState.close; forward = []; time = 10 };
  socket = none;
}

-- Data and an ACK for `node_example`.
abbrev pub packet_example : TcpPacket
packet_example = record {
  version = 4;
  saddr = 10 ∷ 0 ∷ 0 ∷ 2 ∷ [];
  daddr = 93 ∷ 184 ∷ 216 ∷ 34 ∷ [];
  source = 4660;
  dest = 36895;
  seq = 504;
  ack_seq = 101;
  optlen = 0;
  syn = false;
  ack = true;
  psh = true;
  fin = false;
  rst = false;
  urg = false;
  window = 2048;
  options = [];
  payload = 1 ∷ 2 ∷ [];
}

-- A SYN with a segment size of 1400 and a window scale of 7, and data.
abbrev pub syn_example : TcpPacket
syn_example = record packet_example {
  seq = 500;
  optlen = 8;
  syn = true;
  ack = false;
  options = 2 ∷ 4 ∷ 5 ∷ 120 ∷ 1 ∷ 3 ∷ 3 ∷ 7 ∷ 1 ∷ 2 ∷ [];
}

abbrev pub udp_example : UdpSession
udp_example = record {
  time = 990;
  version = 4;
  mss = 65507;
  sent = 0;
  received = 0;
  saddr = 10 ∷ 0 ∷ 0 ∷ 2 ∷ [];
  source = 4660;
  daddr = 8 ∷ 8 ∷ 8 ∷ 8 ∷ [];
  dest = 13568;
  state = UdpState.udp_active;
}

abbrev pub udp_node_example : UdpNode
udp_node_example = record { udp = udp_example; socket = some 8; events = events_example }

abbrev pub icmp_node_example : IcmpNode
icmp_node_example = record {
  icmp = record {
    time = 900;
    version = 4;
    saddr = 10 ∷ 0 ∷ 0 ∷ 2 ∷ [];
    daddr = 8 ∷ 8 ∷ 8 ∷ 8 ∷ [];
    id = 77;
    stop = false;
  };
  socket = some 9;
  events = events_example;
}

abbrev pub sessions_example : List NgSession
sessions_example =
    NgSession.tcp_session node_example
    ∷ NgSession.icmp_session icmp_node_example
    ∷ NgSession.udp_session udp_node_example
    ∷ NgSession.tcp_session closed_example
    ∷ []
