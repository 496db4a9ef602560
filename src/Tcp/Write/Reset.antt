-- ===== src/Tcp/Write/Reset.antt =====
-- The effect of `write_rst` and of the other wrappers on the session.
use tun2http.Prelude.{ℕ, ◌+◌, ◌≡◌, refl, ◌⊎◌, true, false, List, [], ◌∷◌, u32, arith, if◌then◌else◌}
use tun2http.Os.{Os, Call}
use tun2http.Session.{TcpSession, TcpState, in_state}
use tun2http.Tcp.Write.{
  write_rst, write_tcp, write_ack, write_syn_ack, write_data, write_fin_ack, tcp_packet, reset_seq,
}

module _ (os : Os) (cur : TcpSession) (log : List Call) where
  -- A reset closes the session, whether or not it could be written, and moves `remote_seq` by the
  -- SYN if the session was still waiting for its socket; nothing else of it changes.
  pub write_rst_lem : (write_rst os cur log).0 ≡ record cur {
    state = if in_state cur.state TcpState.close then TcpState.close else TcpState.closing;
    remote_seq =
        if in_state cur.state TcpState.listen then u32 (cur.remote_seq + 1) else cur.remote_seq;
  }
  unfolding write_rst
  write_rst_lem = ground arith

  -- A reset puts one packet on the tun device, and its ACK bit is set only for a session that
  -- waits for its socket.
  pub write_rst-packet :
      (write_rst os cur log).1
      ≡ Call.tun_write (
          tcp_packet
            (reset_seq cur)
            (record {
              syn = false;
              ack = in_state cur.state TcpState.listen;
              fin = false;
              rst = true;
            })
            [])
        ∷ log
  unfolding write_rst write_tcp
  write_rst-packet = refl

  -- The wrapper's answer and the state: on failure the session closes, on success nothing changes.
  pub write_ack_cases :
      ((write_ack os cur log).0 ≡ true) × ((write_ack os cur log).1 ≡ cur)
      ⊎ ((write_ack os cur log).0 ≡ false)
        × ((write_ack os cur log).1 ≡ record cur { state = TcpState.closing })
  unfolding write_ack
  write_ack_cases = ground arith

  pub write_syn_ack_cases :
      ((write_syn_ack os cur log).0 ≡ true) × ((write_syn_ack os cur log).1 ≡ cur)
      ⊎ ((write_syn_ack os cur log).0 ≡ false)
        × ((write_syn_ack os cur log).1 ≡ record cur { state = TcpState.closing })
  unfolding write_syn_ack
  write_syn_ack_cases = ground arith

  pub write_fin_ack_cases :
      ((write_fin_ack os cur log).0 ≡ true) × ((write_fin_ack os cur log).1 ≡ cur)
      ⊎ ((write_fin_ack os cur log).0 ≡ false)
        × ((write_fin_ack os cur log).1 ≡ record cur { state = TcpState.closing })
  unfolding write_fin_ack
  write_fin_ack_cases = ground arith

  pub write_data_cases :
      (bytes : List ℕ)
      → ((write_data os cur bytes log).0 ≡ true) × ((write_data os cur bytes log).1 ≡ cur)
        ⊎ ((write_data os cur bytes log).0 ≡ false)
          × ((write_data os cur bytes log).1 ≡ record cur { state = TcpState.closing })
  unfolding write_data
  write_data_cases bytes = ground arith
