-- ===== src/Tcp/Socket/Receive.antt =====
-- Flow control: what `check_tcp_socket` reads from the socket and sends on stays within the window
-- that the remote end has offered.
use Prim.Native.Nat.{Ordering}
use tun2http.Prelude.{
  ℕ, ◌+◌, ◌^◌, ◌≤◌, ◌<◌, ◌≡◌, ◌≢◌, refl, true, false, ◌&&◌, not, Option, List, [], ◌∷◌, u32, sub32,
  arith, if◌then◌else◌, Bool-cases, inl, inr, ◌==◌, length, ltb,
}
use tun2http.Util.{compare_u32}
use tun2http.Os.{Os, Call, Events, Received}
use tun2http.Session.{TcpSession, TcpNode}
use tun2http.Tcp.Window.{get_send_window}
use tun2http.Tcp.Write.{write_rst}
use tun2http.Tcp.Write.Reset.{write_rst_lem, write_fin_ack_cases, write_data_cases}
use tun2http.Tcp.Check.{is_open}
use tun2http.Tcp.Socket.{
  finish, tcp_socket_eof, tcp_socket_bytes, tcp_received, tcp_socket_read, set_tcp,
}

-- The bytes sent and not acknowledged fit the offered window.
pub record InWindow (cur : TcpSession) : Type 0 where
  pub local_fits : cur.local_seq < 2 ^ 32
  pub acked_fits : cur.acked < 2 ^ 32
  pub window_fits : cur.send_window < 2 ^ 32
  pub within : sub32 cur.local_seq cur.acked ≤ cur.send_window

advance :
    (local acked window k : ℕ)
    → local < 2 ^ 32
    → acked < 2 ^ 32
    → window < 2 ^ 32
    → sub32 local acked + k ≤ window
    → sub32 (u32 (local + k)) acked ≤ window
advance local acked window k hl ha hw h = omega arith

module _ (os : Os) where
  -- Room for `k` more sequence numbers.
  abbrev HasRoom : TcpSession → ℕ → Type 0
  HasRoom cur k = sub32 cur.local_seq cur.acked + k ≤ cur.send_window

  finish-InWindow :
      (cur : TcpSession) (log : List Call)
      → InWindow cur
      → HasRoom cur 1
      → InWindow (finish os cur log).0
  unfolding finish
  finish-InWindow cur log h room = ground (
    arith,
    write_fin_ack_cases os cur log,
    advance cur.local_seq cur.acked cur.send_window 1 h.local_fits h.acked_fits h.window_fits room,
  )

  write_rst-InWindow :
      (cur : TcpSession) (log : List Call) → InWindow cur → InWindow (write_rst os cur log).0
  write_rst-InWindow cur log h = ground (arith, write_rst_lem os cur log)

  tcp_socket_bytes-InWindow :
      (s : TcpNode) (bytes : List ℕ) (log : List Call)
      → InWindow s.tcp
      → HasRoom s.tcp (length bytes)
      → InWindow (tcp_socket_bytes os s bytes log).0.tcp
  unfolding tcp_socket_bytes
  tcp_socket_bytes-InWindow s bytes log h room = ground (
    arith,
    write_data_cases os (record (s.tcp) { received = s.received + length bytes }) log bytes,
    advance s.local_seq s.acked s.send_window (length bytes) h.local_fits h.acked_fits h.window_fits
        room,
  )

  tcp_socket_eof-InWindow :
      (s : TcpNode) (log : List Call)
      → InWindow s.tcp
      → HasRoom s.tcp 1
      → InWindow (tcp_socket_eof os s log).0.tcp
  unfolding tcp_socket_eof
  tcp_socket_eof-InWindow s log h room =
      ground (arith, finish-InWindow s.tcp log h room, write_rst-InWindow s.tcp log h)

  -- A call to `recv` returns no more bytes than were asked for.
  abbrev pub RecvFits : Type 0
  RecvFits =
      (log : List Call) (socket : Option ℕ) (size : ℕ) (bytes : List ℕ)
      → os.recv log socket size ≡ Received.bytes bytes
      → length bytes ≤ size

  tcp_received-InWindow :
      (s : TcpNode) (size : ℕ) (r : Received) (log : List Call)
      → InWindow s.tcp
      → HasRoom s.tcp 1
      → HasRoom s.tcp size
      → ((bytes : List ℕ) → r ≡ Received.bytes bytes → length bytes ≤ size)
      → InWindow (tcp_received os s r log).0.tcp
  unfolding tcp_received
  tcp_received-InWindow s size (Received.failed true) log h one room fits = h
  tcp_received-InWindow s size (Received.failed false) log h one room fits =
      write_rst-InWindow s.tcp log h
  tcp_received-InWindow s size (Received.bytes []) log h one room fits =
      tcp_socket_eof-InWindow s log h one
  tcp_received-InWindow s size (Received.bytes (b ∷ bytes)) log h one room fits =
      tcp_socket_bytes-InWindow s (b ∷ bytes) log h (omega (arith, fits (b ∷ bytes) refl))

  -- The window that is left, where the acknowledged number is not ahead of the sent one.
  get_send_window_lem :
      (cur : TcpSession)
      → compare_u32 cur.acked cur.local_seq ≢ Ordering.gt
      → InWindow cur
      → sub32 cur.local_seq cur.acked + get_send_window cur ≡ cur.send_window
  unfolding get_send_window
  get_send_window_lem cur behind h = ground arith

  -- Reading from the socket and passing the data or the end of the stream on never puts more
  -- sequence numbers in flight than the remote end has offered, if that held before and the
  -- acknowledged number is not ahead of the sent one. What is relied on is that `recv` returns no
  -- more bytes than asked for.
  pub tcp_socket_read-InWindow :
      (s : TcpNode) (ev : Events) (log : List Call)
      → RecvFits
      → compare_u32 s.acked s.local_seq ≢ Ordering.gt
      → InWindow s.tcp
      → InWindow (tcp_socket_read os s ev log).0.tcp
  unfolding tcp_socket_read
  tcp_socket_read-InWindow s ev log fits behind h =
      let s' : TcpNode = set_tcp s (record (s.tcp) { time = os.time log }) in
      let log' : List Call = Call.time ∷ log in
      let window : ℕ = get_send_window s.tcp in
      let size : ℕ = if ltb s.mss window then s.mss else window in
      let left = get_send_window_lem s.tcp behind h in
      let h' : InWindow s'.tcp = ground arith in
      elim (Bool-cases (is_open s.state && (ev.epollin && not (window == 0)))) [
        | inl e ↦ rw e (
            tcp_received-InWindow s' size (os.recv log' s.socket size) _ h' (ground (arith, left))
              (ground (arith, left)) (λ bytes. fits log' s.socket size bytes))
        | inr e ↦ rw e h
      ]
