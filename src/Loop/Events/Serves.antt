-- ===== src/Loop/Events/Serves.antt =====
-- What the handling of one event does to the list of sessions is a step of its life, or several.
use tun2http.Prelude.{
  ℕ, zero, suc, refl, sym, subst, append_assoc, Bool, not, ◌&&◌, Option, none, some, List, [], ◌∷◌,
  ◌++◌, ◌==◌, arith, length, Bool-cases, Option-cases, inl, inr,
}
use tun2http.Os.{Os, Call, Events}
use tun2http.Session.{UdpNode, NgSession, Handled, handled, hung}
use tun2http.Session.Leaves.{Leaves, Handled-cases}
use tun2http.Ip.Handle.{Settings, check_tun}
use tun2http.Udp.Check.{check_udp_socket}
use tun2http.Loop.Life.{tun, icmp_socket, udp_socket, tcp_socket, LoopRuns, step}
use tun2http.Udp.Handle.Send.{Gives}
use tun2http.Loop.Events.{onto, served_udp, served_at, tun_loop, udp_loop, serve_session, serve_at}

Leaves-map :
    (P Q : List NgSession → Type 0) (h : Handled)
    → ((xs : List NgSession) → P xs → Q xs)
    → Leaves P h
    → Leaves Q h
Leaves-map P Q (handled sessions log) f p = f sessions p
Leaves-map P Q hung f p = tt

onto-Leaves :
    (P : List NgSession → Type 0) (s : NgSession) (h : Handled)
    → Leaves (λ (xs : List NgSession). P (s ∷ xs)) h
    → Leaves P (onto s h)
onto-Leaves P s (handled sessions log) r = r
onto-Leaves P s hung r = tt

served_udp-Leaves :
    (P : List NgSession → Type 0) (rest : List NgSession) (o : Option (UdpNode × List Call))
    → Gives (λ (n : UdpNode). P (NgSession.udp_session n ∷ rest)) o
    → Leaves P (served_at (served_udp o) rest)
served_udp-Leaves P rest none r = tt
served_udp-Leaves P rest (some (n, log)) r = r

module _ (os : Os) (patch : List ℕ → Option (List ℕ)) (inet_ntoa : List ℕ → List ℕ) (fuel : ℕ)
    (beyond : ℕ → ℕ) (args : Settings) (junk : List Call → List ℕ) (first : List NgSession) where
  abbrev pub Reachable : List NgSession → Type 0
  Reachable = LoopRuns os patch inet_ntoa fuel beyond args first

  pub tun_loop-Reachable :
      (rounds : ℕ) (ev : Events) (count : ℕ) (sessions : List NgSession) (log : List Call)
      → Reachable sessions
      → Leaves Reachable
          (tun_loop os patch inet_ntoa fuel beyond args junk rounds ev count sessions log).1
  unfolding tun_loop
  tun_loop-Reachable zero ev count sessions log r = tt
  tun_loop-Reachable (suc rounds) ev count sessions log r =
      let log' : List Call = Call.tun_poll ∷ log in
      let read : Bool × Handled =
        check_tun os inet_ntoa fuel beyond args (junk log') ev count sessions log' in
      elim (Bool-cases (os.tun_readable log)) [
        | inr idle ↦ rw (idle, tun_loop) r
        | inl more ↦ elim (Handled-cases read.1) [
          | inr gone ↦ rw (more, gone, tun_loop) tt
          | inl (sessions', log'', e) ↦
              let r' : Reachable sessions' =
                step sessions sessions' log' r (tun (junk log') ev count sessions' log'' e) in
              elim (Bool-cases read.0) [
                | inl failed ↦ rw (more, e, failed, tun_loop) r'
                | inr fine ↦
                    rw (more, e, fine, tun_loop)
                      (tun_loop-Reachable rounds ev count sessions' log'' r')
              ]
        ]
      ]

  udp_loop-Reachable :
      (rounds : ℕ) (ev : Events) (before : List NgSession) (s : UdpNode) (rest : List NgSession)
      (log : List Call)
      → Reachable (before ++ (NgSession.udp_session s ∷ rest))
      → Gives
          (λ (n : UdpNode). Reachable (before ++ (NgSession.udp_session n ∷ rest)))
          (udp_loop os patch inet_ntoa fuel beyond args junk rounds s ev log)
  unfolding udp_loop
  udp_loop-Reachable zero ev before s rest log r = tt
  udp_loop-Reachable (suc rounds) ev before s rest log r =
      let log' : List Call = Call.poll s.socket ∷ log in
      elim (Bool-cases (not ev.epollerr && ev.epollin)) [
        | inr idle ↦ rw (idle, udp_loop) r
        | inl wanted ↦ elim (Bool-cases (os.readable log s.socket)) [
          | inr idle ↦ rw (wanted, idle, udp_loop) r
          | inl more ↦ elim (Option-cases (check_udp_socket os fuel beyond s ev log')) [
            | inl gone ↦ rw (wanted, more, gone, udp_loop) tt
            | inr ((next, log''), e) ↦
                rw (wanted, more, e, udp_loop)
                  (udp_loop-Reachable rounds ev before next rest log'' (
                    step (before ++ (NgSession.udp_session s ∷ rest)) _ log' r (
                      udp_socket ev before s next rest log'' refl (ground arith) (ground arith) e)))
          ]
        ]
      ]

  serve_session-Reachable :
      (rounds : ℕ) (ev : Events) (before : List NgSession) (s : NgSession) (rest : List NgSession)
      (log : List Call)
      → Reachable (before ++ (s ∷ rest))
      → Leaves
          (λ (xs : List NgSession). Reachable (before ++ xs))
          (served_at (serve_session os patch inet_ntoa fuel beyond args junk rounds s ev log) rest)
  unfolding serve_session
  serve_session-Reachable rounds ev before (NgSession.icmp_session s) rest log r =
      step _ _ log r (icmp_socket ev before s rest refl)
  serve_session-Reachable rounds ev before (NgSession.tcp_session s) rest log r =
      step _ _ log r (tcp_socket ev before s rest refl)
  serve_session-Reachable rounds ev before (NgSession.udp_session s) rest log r =
      served_udp-Leaves (λ (xs : List NgSession). Reachable (before ++ xs)) rest _
        (udp_loop-Reachable rounds ev before s rest log r)

  pub serve_at-Reachable :
      (rounds behind : ℕ) (ev : Events) (before sessions : List NgSession) (log : List Call)
      → Reachable (before ++ sessions)
      → Leaves
          (λ (xs : List NgSession). Reachable (before ++ xs))
          (serve_at os patch inet_ntoa fuel beyond args junk rounds behind ev sessions log)
  unfolding serve_at
  serve_at-Reachable rounds behind ev before [] log r = tt
  serve_at-Reachable rounds behind ev before (s ∷ rest) log r =
      elim (Bool-cases (length rest == behind)) [
        | inl here ↦ rw here (serve_session-Reachable rounds ev before s rest log r)
        | inr further ↦ rw further (
            onto-Leaves (λ (xs : List NgSession). Reachable (before ++ xs)) s _
              (Leaves-map (λ (xs : List NgSession). Reachable ((before ++ (s ∷ [])) ++ xs))
                (λ (xs : List NgSession). Reachable (before ++ (s ∷ xs))) _
                (λ xs r'. subst Reachable (append_assoc before (s ∷ []) xs) r')
                (serve_at-Reachable rounds behind ev (before ++ (s ∷ [])) rest log
                  (subst Reachable (sym (append_assoc before (s ∷ []) rest)) r))))
      ]
