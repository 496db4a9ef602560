-- ===== src/Tcp/Window/Bounds.antt =====
-- Bounds of the windows and of the timeout.
use tun2http.Prelude.{
  ℕ, ◌-◌, ◌*◌, ◌/◌, ◌^◌, ◌≤◌, ◌<◌, ◌≡◌, ◌∙◌, ap, List, ltb, ◌==◌, if◌then◌else◌, u32, pos, scale_ℤ,
  arith,
}
use native.Mathlib.Nat.{mod-le, one-le-pow, mul-le-mul_left}
use tun2http.Os.{Os, Call}
use tun2http.Session.{TcpSession, TcpNode}
use tun2http.Tcp.Window.{
  get_tcp_timeout, base_timeout, get_receive_buffer, get_receive_window, to_forward, max_window,
  sessions_scale,
}

quotient_bound : (w p k : ℕ) → 0 < p → w ≤ k * p → w / p ≤ k
quotient_bound w p k pos_p h = grind arith

window_of : ℕ → ℕ → ℕ → ℕ → ℕ
window_of toforward room max p =
    let capped = if ltb max room then max else room in
    let window = if ltb toforward capped then capped - toforward else 0 in
    if window / p == 0 then 0 else window

window_of-le : (toforward room max p : ℕ) → window_of toforward room max p ≤ max
unfolding window_of
window_of-le toforward room max p = ground arith

-- The window that is offered fits the 16 bits of the header once it is scaled, for every scale; so
-- the header's field is not cut.
pub get_receive_window_fits :
    (os : Os) (log : List Call) (cur : TcpNode)
    → get_receive_window os log cur / 2 ^ cur.recv_scale < 2 ^ 16
unfolding get_receive_window window_of
get_receive_window_fits os log cur =
    let p : ℕ = 2 ^ cur.recv_scale in
    let room : ℕ = u32 (get_receive_buffer os log cur.socket) in
    let le : window_of (to_forward 0 cur.forward) room (max_window cur.recv_scale) p ≤ 0xFFFF * p =
      omega (
        arith,
        window_of-le (to_forward 0 cur.forward) room (max_window cur.recv_scale) p,
        mod-le (0xFFFF * p) (2 ^ 32),
      ) in
    omega (arith, quotient_bound _ p 0xFFFF (one-le-pow cur.recv_scale 2 (omega arith)) le)

-- The share that is left of a timeout of `k` seconds, where the sessions are within their limit.
scaled_timeout :
    (k sessions maxsessions : ℕ)
    → 0 < maxsessions
    → sessions ≤ maxsessions
    → scale_ℤ k (sessions_scale sessions maxsessions) 100
      ≡ pos (k * (100 - sessions * 100 / maxsessions) / 100)
scaled_timeout k sessions maxsessions hm hs =
    let share : sessions * 100 / maxsessions ≤ 100 =
      quotient_bound (sessions * 100) maxsessions 100 hm (omega arith) in
    ground arith

share_bound : (k x : ℕ) → k * (100 - x) / 100 ≤ k
share_bound k x =
    quotient_bound (k * (100 - x)) 100 k (omega arith) (mul-le-mul_left k (omega arith))

scaled_timeout_none :
    (k maxsessions : ℕ) → 0 < maxsessions → scale_ℤ k (sessions_scale 0 maxsessions) 100 ≡ pos k
scaled_timeout_none k maxsessions hm =
    scaled_timeout k 0 maxsessions hm (omega arith) ∙ ap pos (grind arith)

full_share : (m : ℕ) → 0 < m → m * 100 / m ≡ 100
full_share m hm = grind arith

scaled_timeout_full :
    (k maxsessions : ℕ)
    → 0 < maxsessions
    → scale_ℤ k (sessions_scale maxsessions maxsessions) 100 ≡ pos 0
scaled_timeout_full k maxsessions hm =
    scaled_timeout k maxsessions maxsessions hm (omega arith)
    ∙ ap pos (rw (full_share maxsessions hm) (omega arith))

-- Within the limit of sessions the timeout is not negative and at most the state's own, it is the
-- state's own with no sessions and 0 at the limit.
get_tcp_timeout_bounds :
    (t : TcpSession) (sessions maxsessions : ℕ)
    → 0 < maxsessions
    → sessions ≤ maxsessions
    → ((n : ℕ) × (get_tcp_timeout t sessions maxsessions ≡ pos n) × (n ≤ base_timeout t.state))
      × (get_tcp_timeout t 0 maxsessions ≡ pos (base_timeout t.state))
      × (get_tcp_timeout t maxsessions maxsessions ≡ pos 0)
unfolding get_tcp_timeout
get_tcp_timeout_bounds t sessions maxsessions hm hs =
    let k : ℕ = base_timeout t.state in
    let x : ℕ = sessions * 100 / maxsessions in
    (
      (k * (100 - x) / 100, scaled_timeout k sessions maxsessions hm hs, share_bound k x),
      scaled_timeout_none k maxsessions hm,
      scaled_timeout_full k maxsessions hm,
    )
