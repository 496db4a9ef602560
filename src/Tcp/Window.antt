-- ===== src/Tcp/Window.antt =====
-- android_app/app/src/main/cpp/tcp.c: the windows of a session and its timeout. Sums and shifts are
-- of `uint32_t`; a shift by 32 or more, which C leaves open, gives 0.
pub mod Bounds
use Prim.Native.Nat.{Ordering}
use tun2http.Prelude.{
  ℕ, ◌+◌, ◌-◌, ◌*◌, ◌/◌, ◌%◌, ◌^◌, Bool, ◌||◌, Option, none, some, List, [], ◌∷◌, ltb, ◌==◌,
  if◌then◌else◌, u32, sub32, ℤ, sub_ℕ, scale_ℤ,
}
use tun2http.Util.{compare_u32}
use tun2http.Os.{Os, Call}
use tun2http.Session.{Segment, TcpSession, TcpNode, TcpState, in_state}

abbrev tcp_init_timeout : ℕ
tcp_init_timeout = 30

abbrev tcp_idle_timeout : ℕ
tcp_idle_timeout = 3600

abbrev tcp_close_timeout : ℕ
tcp_close_timeout = 30

-- The share of the sessions that is left, in percent; it is negative when there are too many.
abbrev pub sessions_scale : ℕ → ℕ → ℤ
sessions_scale sessions maxsessions = sub_ℕ 100 (sessions * 100 / maxsessions)

unfoldable pub base_timeout : TcpState → ℕ
base_timeout state =
    if in_state state TcpState.listen || in_state state TcpState.syn_recv
    then tcp_init_timeout
    else if in_state state TcpState.established
    then tcp_idle_timeout
    else tcp_close_timeout

unfoldable pub get_tcp_timeout : TcpSession → ℕ → ℕ → ℤ
get_tcp_timeout t sessions maxsessions =
    scale_ℤ (base_timeout t.state) (sessions_scale sessions maxsessions) 100

-- How far the last acknowledged byte is behind the bytes sent.
abbrev unacked : TcpSession → ℕ
unacked cur = elim (compare_u32 cur.acked cur.local_seq) [
  | Ordering.gt ↦ cur.acked
  | _ ↦ sub32 cur.local_seq cur.acked
]

unfoldable pub get_send_window : TcpSession → ℕ
get_send_window cur =
    let behind = unacked cur in if ltb behind cur.send_window then cur.send_window - behind else 0

-- Half of the socket's send buffer, less what is unsent in it. A size of 0 is replaced.
unfoldable pub get_receive_buffer : Os → List Call → Option ℕ → ℕ
get_receive_buffer os log none = 0
get_receive_buffer os log (some socket) =
    let asked : ℕ = elim (os.sndbuf log socket) [ none ↦ 0 | some n ↦ n ] in
    let sendbuf = if asked == 0 then 16384 else asked in
    let unsent : ℕ = elim (os.outq log socket) [ none ↦ 0 | some n ↦ n ] in
    if ltb unsent (sendbuf / 2) then sendbuf / 2 - unsent else 0

unfoldable pub to_forward : ℕ → List Segment → ℕ
to_forward total [] = total
to_forward total (q ∷ rest) = to_forward (u32 (total + (2 ^ 32 + q.len - q.sent))) rest

abbrev pub max_window : ℕ → ℕ
max_window scale = u32 (0xFFFF * 2 ^ scale)

unfoldable pub get_receive_window : Os → List Call → TcpNode → ℕ
get_receive_window os log cur =
    let toforward = to_forward 0 cur.forward in
    let room = u32 (get_receive_buffer os log cur.socket) in
    let max = max_window cur.recv_scale in
    let capped = if ltb max room then max else room in
    let window = if ltb toforward capped then capped - toforward else 0 in
    if window / 2 ^ cur.recv_scale == 0 then 0 else window
