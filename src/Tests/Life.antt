-- ===== src/Tests/Life.antt =====
-- The theorem on the life of the list of sessions.
use tun2http.Prelude.{ℕ, ◌≡◌, refl, true, false, List, [], ◌∷◌, replicate}
use tun2http.Os.{Os, Call, Received}
use tun2http.Session.{NgSession, Handled, handled, hung}
use tun2http.Tcp.Header.{slice}
use tun2http.Sockets.{open_udp_socket}
use tun2http.Udp.Handle.{
  find_udp, send_udp, handle_udp_known, handle_udp_new, handle_udp, udp_session_of, has_udp_session,
}
use tun2http.Ip.{ip_target, ip4_target, udp_view}
use tun2http.Ip.Handle.{Settings, handle_ip, dispatch_ip, check_tun}
use tun2http.Ip.Shape.{InShape}
use tun2http.Loop.{sweep}
use tun2http.Loop.Life.{LoopReachable, start, step, tun, check}
use tun2http.Loop.Life.Shape.{LoopReachable-InShape}
use tun2http.Tests.Data.{os_example, patch_example, name_example, events_example}

abbrev pub zeros : ℕ → ℕ
zeros k = 0

abbrev pub settings_example : Settings
settings_example = record { fwd53 = true; verbose = false; maxsessions = 3 }

-- The tun device gives a UDP packet with two bytes of data.
abbrev pub os_tun : Os
os_tun = record os_example {
  tun_read = λ log. Received.bytes (
      0x45 ∷ 0 ∷ 0 ∷ 30 ∷ 0 ∷ 0 ∷ 0 ∷ 0 ∷ 64 ∷ 17 ∷ 0 ∷ 0 ∷ 10 ∷ 0 ∷ 0 ∷ 2 ∷ 8 ∷ 8 ∷ 8 ∷ 8 ∷ 18 ∷ 52
      ∷ 0 ∷ 80 ∷ 0 ∷ 10 ∷ 0 ∷ 0 ∷ 1 ∷ 2 ∷ []);
}

abbrev pub sessions_of : Handled → List NgSession
sessions_of (handled sessions log) = sessions
sessions_of hung = []

abbrev pub log_of : Handled → List Call
log_of (handled sessions log) = log
log_of hung = []

abbrev after_tun : Handled
after_tun =
    (check_tun os_tun name_example 9 zeros settings_example (replicate 40 0) events_example 0 []
      []).1

-- One session stands in the list.
after_tun_handled : after_tun ≡ handled (sessions_of after_tun) (log_of after_tun)
unfolding check_tun handle_ip dispatch_ip ip_target ip4_target udp_view slice handle_udp
    handle_udp_new handle_udp_known find_udp send_udp udp_session_of has_udp_session open_udp_socket
after_tun_handled = refl

-- And a pass over the list.
abbrev swept_list : List NgSession
swept_list = (sweep os_tun 1 100 2000 (sessions_of after_tun) 3600 (log_of after_tun)).0

swept_list-LoopReachable :
    LoopReachable os_tun patch_example name_example 9 zeros settings_example swept_list
swept_list-LoopReachable =
    step (sessions_of after_tun) swept_list (log_of after_tun)
      (step [] (sessions_of after_tun) [] start (
        tun (replicate 40 0) events_example 0 (sessions_of after_tun) (log_of after_tun)
          after_tun_handled))
      (check 1 100 2000 3600)

LoopReachable-InShape_example : InShape swept_list
LoopReachable-InShape_example =
    LoopReachable-InShape os_tun patch_example name_example 9 zeros settings_example swept_list
      swept_list-LoopReachable
