-- ===== src/Tcp/Stream/Filing.antt =====
-- What holds of a session that expects the first byte of the stream, and stays when a part of it is
-- filed.
use tun2http.Prelude.{
  ℕ, ◌+◌, ◌≤◌, ◌<◌, ◌^◌, ◌≡◌, sym, append-nil, Bool, false, Option, List, [], ◌==◌, swap16, length,
  take, drop, arith,
}
use tun2http.Os.{Os, Call}
use tun2http.Session.{TcpSession}
use tun2http.Tcp.Queue.{queue_tcp}
use tun2http.Tcp.Stream.{accepted, place, Delivers}
use tun2http.Tcp.Stream.Forward.{queue_tcp-AllCarry}

remote_seq-queue_tcp :
    (seq : ℕ) (psh : Bool) (bytes : List ℕ) (cur : TcpSession)
    → (queue_tcp seq psh bytes cur).remote_seq ≡ cur.remote_seq
unfolding queue_tcp
remote_seq-queue_tcp seq psh bytes cur = ground arith

-- No data of the session is rewritten.
abbrev pub IsPlain : TcpSession → Type 0
IsPlain cur = (swap16 cur.dest == 80) ≡ false

module _ (os : Os) (socket : Option ℕ) (stream : List ℕ) (base : ℕ) (short : length stream < 2 ^ 32)
    (base_fits : base < 2 ^ 32) where
  -- Filing a part of the stream.
  pub Delivers-queue_tcp :
      (before : List ℕ) (seq : ℕ) (psh : Bool) (bytes : List ℕ) (cur : TcpSession) (log : List Call)
      → seq < 2 ^ 32
      → place base seq + length bytes ≤ length stream
      → bytes ≡ take (length bytes) (drop (place base seq) stream)
      → Delivers os socket before stream base cur log
      → Delivers os socket before stream base (queue_tcp seq psh bytes cur) log
  Delivers-queue_tcp before seq psh bytes cur log fits within e d =
      let same = remote_seq-queue_tcp seq psh bytes cur in
      record {
        queued = queue_tcp-AllCarry stream base seq psh bytes cur fits within e d.queued;
        remote_fits = rw same d.remote_fits;
        reached = rw same d.reached;
        given = rw same d.given;
      }

  -- A session that expects the stream's first byte, with nothing queued.
  pub Delivers-first :
      (first : TcpSession) (start_log : List Call)
      → first.forward ≡ []
      → first.remote_seq ≡ base
      → Delivers os socket (accepted os socket start_log) stream base first start_log
  Delivers-first first start_log empty seq = record {
    queued = rw empty tt;
    remote_fits = rw seq base_fits;
    reached = omega arith;
    given =
        let none_yet : place base first.remote_seq ≡ 0 = omega arith in
        rw none_yet (sym (append-nil (accepted os socket start_log)));
  }
