-- ===== src/Tcp/Invariant.antt =====
-- What every operation on a TCP session keeps.
use tun2http.Prelude.{◌^◌, ◌<◌, ◌≡◌, Bool, true, none, ◌||◌}
use tun2http.Session.{TcpSession, TcpNode, TcpState, in_state}
use tun2http.Tcp.Queue.Content.{IsQueue}

-- The states in which the session's socket is closed already.
abbrev is_socketless : TcpState → Bool
is_socketless state =
    in_state state TcpState.close
    || in_state state TcpState.fin_wait1
    || in_state state TcpState.last_ack

-- The sequence numbers fit 32 bits and the queue is in order, within its types and its bytes.
pub record IsSession (cur : TcpSession) : Type 0 where
  pub queue : IsQueue cur.forward
  pub remote_fits : cur.remote_seq < 2 ^ 32
  pub local_fits : cur.local_seq < 2 ^ 32

-- In the states that a session enters by closing its socket it has none, so none is closed twice
-- and none is left behind.
pub record IsSound (s : TcpNode) : Type 0 where
  pub session : IsSession s.tcp
  pub released : is_socketless s.state ≡ true → s.socket ≡ none
