-- ===== src/Tests/Service.antt =====
-- The theorems on the thread, the calls from Java and the sockets.
use tun2http.Prelude.{
  ℕ, Option, ◌+◌, ◌≤◌, ◌<◌, ◌≡◌, ◌⊎◌, refl, Bool, true, false, not, List, [], ◌∷◌, replicate,
  length, if◌then◌else◌,
}
use tun2http.Os.{Os, Call, Ready, Polled}
use tun2http.Session.{Handled}
use tun2http.Session.Leaves.{Leaves}
use tun2http.Sockets.{open_udp_socket}
use tun2http.Tcp.Header.{slice}
use tun2http.Udp.Handle.{
  find_udp, send_udp, handle_udp_known, handle_udp_new, handle_udp, udp_session_of, has_udp_session,
}
use tun2http.Ip.{ip_target, ip4_target, udp_view}
use tun2http.Ip.Handle.{handle_ip, dispatch_ip, check_tun}
use tun2http.Loop.{sweep, count_sessions, monitor_all, check_allowed}
use tun2http.Loop.Life.{LoopRuns}
use tun2http.Loop.Events.{Waiting, tun_loop, dispatch, before_wait, event_loop, handle_events}
use tun2http.Loop.Events.Refines.{handle_events-LoopRuns}
use tun2http.Loop.Events.Wait.{before_wait_bounds}
use tun2http.Service.{Service, jni_stop}
use tun2http.Tests.Data.{os_example, patch_example, name_example, events_example, sessions_example}
use tun2http.Tests.Life.{zeros, settings_example, os_tun, sessions_of}

abbrev junk_example : List Call → List ℕ
junk_example log = replicate 40 0

abbrev has_read : List Call → Bool
has_read [] = false
has_read (Call.tun_read ∷ log) = true
has_read (call ∷ log) = has_read log

-- The tun device has one packet, and then the thread is asked to stop.
abbrev os_events : Os
os_events = record os_tun {
  tun_readable = λ log. not (has_read log);
  epoll_wait = λ log ms. Polled.ready (
      if has_read log
      then Ready.pipe_ready ∷ Ready.tun_ready events_example ∷ []
      else Ready.tun_ready events_example ∷ []);
}

abbrev events_end : Handled
events_end =
    handle_events os_events patch_example name_example 9 zeros settings_example junk_example 9 [] []

-- The packet's session stands in the list.
events_end-length : length (sessions_of events_end) ≡ 1
unfolding handle_events event_loop before_wait dispatch tun_loop sweep count_sessions monitor_all
    check_allowed check_tun handle_ip dispatch_ip ip_target ip4_target udp_view slice handle_udp
    handle_udp_new handle_udp_known find_udp send_udp udp_session_of has_udp_session open_udp_socket
events_end-length = refl

handle_events-LoopRuns_example :
    Leaves (LoopRuns os_events patch_example name_example 9 zeros settings_example []) events_end
handle_events-LoopRuns_example =
    handle_events-LoopRuns os_events patch_example name_example 9 zeros settings_example
      junk_example 9 [] []

abbrev waiting : Waiting
waiting =
    before_wait os_example patch_example name_example 9 zeros settings_example junk_example 4000
      sessions_example []

before_wait_bounds_example :
    let (recheck, watched, log) = monitor_all os_example sessions_example [] in
    let timed : List Call = Call.get_ms ∷ log in
    let swept =
      sweep os_example
        (count_sessions sessions_example)
        settings_example.maxsessions
        1000
        watched
        3600
        (Call.time ∷ timed) in
    (100 ≤ waiting.wait)
    × (waiting.wait ≤ 3600000)
    × ((4000 + 100 < 5000)
          × (waiting.last_check ≡ 5000)
          × (waiting.sessions ≡ swept.0)
          × (waiting.log ≡ swept.2)
        ⊎ (5000 ≤ 4000 + 100)
          × (waiting.last_check ≡ 4000)
          × (waiting.sessions ≡ watched)
          × (waiting.log ≡ timed)
          × (waiting.wait ≡ 100))
before_wait_bounds_example =
    before_wait_bounds os_example patch_example name_example 9 zeros settings_example junk_example
      4000 sessions_example []

-- A thread was started with sessions in the list.
abbrev started : Service
started = record { thread_id = 5; running = true; sessions = sessions_example }

-- The pipe is reported first.
abbrev os_stopping : Os
os_stopping = record os_example {
  epoll_wait = λ log ms. Polled.ready (Ready.pipe_ready ∷ Ready.tun_ready events_example ∷ []);
}

abbrev stop_run : Option (Service × List Call)
stop_run =
    jni_stop os_stopping patch_example name_example 9 zeros settings_example junk_example 2 started
      []
