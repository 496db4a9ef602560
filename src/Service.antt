-- ===== src/Service.antt =====
-- android_app/app/src/main/cpp/tun2http.c: the calls from Java that make ready, start, stop and end
-- the thread of `handle_events`.
pub mod Life
use tun2http.Prelude.{
  ℕ, Bool, true, false, not, ◌&&◌, Option, none, some, List, [], ◌∷◌, ◌==◌, if◌then◌else◌,
}
use tun2http.Os.{Os, Call}
use tun2http.Session.{NgSession, Handled, handled, hung}
use tun2http.Ip.Handle.{Settings}
use tun2http.Loop.{clear}
use tun2http.Loop.Events.{handle_events}

-- The global variables: `thread_id`, which is 0 for none, `ng_session`, and whether the thread of that
-- number runs, which `pthread_kill(thread_id, 0)` tells. While it runs, `sessions` is the list that it
-- started with: nothing but the thread uses the list until it has ended.
pub record Service : Type 0 where
  pub thread_id : ℕ
  pub running : Bool
  pub sessions : List NgSession

abbrev pub loaded : Service
loaded = record { thread_id = 0; running = false; sessions = [] }

-- `thread_id && pthread_kill(thread_id, 0) == 0`
abbrev pub is_running : Service → Bool
is_running s = not (s.thread_id == 0) && s.running

-- The list is forgotten, and the pipe made.
unfoldable pub jni_init : Service → List Call → Service × List Call
jni_init s log = (record s { sessions = [] }, Call.make_pipe ∷ log)

unfoldable pub jni_done : Service → List Call → Service × List Call
jni_done s log =
    let (sessions, log') = clear s.sessions log in
    (record s { sessions = sessions }, Call.close_pipe ∷ log')

module _ (os : Os) (patch : List ℕ → Option (List ℕ)) (inet_ntoa : List ℕ → List ℕ) (fuel : ℕ)
    (beyond : ℕ → ℕ) (args : Settings) (junk : List Call → List ℕ) (rounds : ℕ) where
  -- The thread runs to its end. Where it could not be attached to Java, it leaves its number.
  unfoldable pub run_thread : Service → List Call → Option (Service × List Call)
  run_thread s log =
      elim (handle_events os patch inet_ntoa fuel beyond args junk rounds s.sessions log) [
        | hung ↦ none
        | handled sessions log' ↦ some (
          record {
            thread_id = if os.setup_fails log then s.thread_id else 0;
            running = false;
            sessions = sessions;
          },
          log',
        )
      ]

  unfoldable pub jni_start : Service → List Call → Service × List Call
  jni_start s log =
      let tried : List Call = Call.create_thread ∷ Call.block_tun ∷ log in
      if is_running s
      then (s, Call.block_tun ∷ log)
      else elim (os.create_thread (Call.block_tun ∷ log)) [
        | none ↦ (s, tried)
        | some id ↦ (record s { thread_id = id; running = true }, tried)
      ]

  abbrev pub clear_service : Service → List Call → Service × List Call
  clear_service s log =
      let (sessions, log') = clear s.sessions log in (record s { sessions = sessions }, log')

  -- A thread that is asked to stop is waited for; it is `none` where that never ends. The list is
  -- cleared even where the thread could not be asked.
  unfoldable pub jni_stop : Service → List Call → Option (Service × List Call)
  jni_stop s log =
      let asked : List Call = Call.write_pipe ∷ log in
      if is_running s
      then if os.pipe_write_fails log
        then some (clear_service s asked)
        else elim (run_thread s asked) [
          | none ↦ none
          | some (ended, log') ↦ some (clear_service ended (Call.join_thread ∷ log'))
        ]
      else some (s, log)
