-- ===== src/Loop/Life/Served.antt =====
-- What events of UDP and ICMP sockets, and checks, leave of a session.
use tun2http.Prelude.{
  ℕ, ◌+◌, ◌≡◌, refl, ap, ◌∙◌, Bool, true, false, not, ◌||◌, Option, none, some, List, [], ◌∷◌, ◌++◌,
  arith, if◌then◌else◌, length,
}
use tun2http.Os.{Os, Call, Events, Received}
use tun2http.Session.{UdpSession, UdpNode, IcmpNode, NgSession, has_socket}
use tun2http.Udp.Check.{
  check_udp_socket, udp_received, udp_answer, after_parse, check_udp_session, expire_udp, close_udp,
  reset_udp_usage, finishing, set_udp, is_dns,
}
use tun2http.Udp.Write.{write_udp}
use tun2http.Udp.Check.Life.{IsUdpSound}
use tun2http.Icmp.{check_icmp_session}
use tun2http.Dns.{Parsed, parsed, parse_unfinished}
use tun2http.Icmp.Socket.{icmp_maxmsg, check_icmp_socket, icmp_received, icmp_answer}
use tun2http.Icmp.Handle.Send.{IsPinged}
use tun2http.Icmp.Handle.Kept.{matches_IsPinged}
use tun2http.Udp.Handle.Send.{Gives}
use tun2http.Loop.Life.Tamed.{udp_key, Tame, Tamed, none_left, keeps}

pub Tame-refl : (s : NgSession) → Tame s s
Tame-refl (NgSession.tcp_session s) = refl
Tame-refl (NgSession.udp_session s) = (refl, λ h. h)
Tame-refl (NgSession.icmp_session s) = (λ q h. h, λ h. h)

Tamed-refl : (xs : List NgSession) → Tamed xs xs
Tamed-refl [] = none_left
Tamed-refl (s ∷ xs) = keeps s s xs xs (Tame-refl s) (Tamed-refl xs)

-- One session of the list changes.
pub Tamed-one :
    (before : List NgSession) (s t : NgSession) (rest : List NgSession)
    → Tame s t
    → Tamed (before ++ (s ∷ rest)) (before ++ (t ∷ rest))
Tamed-one [] s t rest h = keeps s t rest rest h (Tamed-refl rest)
Tamed-one (x ∷ before) s t rest h =
    keeps x x (before ++ (s ∷ rest)) (before ++ (t ∷ rest)) (Tame-refl x)
      (Tamed-one before s t rest h)

-- What the events of a UDP socket leave of its session.
pub record IsServed (s next : UdpNode) : Type 0 where
  pub same_key : udp_key next.udp ≡ udp_key s.udp
  pub sound : IsUdpSound s → IsUdpSound next

after_parse-Gives :
    (P : UdpNode → Type 0) (r : Parsed) (n : UdpNode) (log : List Call)
    → P n
    → Gives P (after_parse r (n, log))
after_parse-Gives P parsed n log h = h
after_parse-Gives P parse_unfinished n log h = tt

choose-Gives :
    (P : UdpNode → Type 0) (b : Bool) (x y : Option (UdpNode × List Call))
    → Gives P x
    → Gives P y
    → Gives P (if b then x else y)
choose-Gives P true x y h k = h
choose-Gives P false x y h k = k

-- Counting what was received and finishing the session serve it.
counted-IsServed :
    (s : UdpNode) (n : ℕ) (last : Bool)
    → let cur : UdpSession = record (s.udp) { received = n } in
      IsServed s (set_udp s (if last then finishing cur else cur))
counted-IsServed s n true = ground arith
counted-IsServed s n false = ground arith

timed-Gives :
    (s : UdpNode) (now : ℕ) (r : Option (UdpNode × List Call))
    → Gives (IsServed (set_udp s (record (s.udp) { time = now }))) r
    → Gives (IsServed s) r
timed-Gives s now none h = tt
timed-Gives s now (some (next, log)) h = record {
  same_key = h.same_key;
  sound = λ k. h.sound (record { released = k.released });
}

module _ (os : Os) (fuel : ℕ) (beyond : ℕ → ℕ) where
  udp_answer-IsServed :
      (s : UdpNode) (bytes : List ℕ) (log : List Call)
      → Gives (IsServed s) (udp_answer os fuel beyond s bytes log)
  unfolding udp_answer
  udp_answer-IsServed s bytes log =
      let cur : UdpSession = record (s.udp) { received = s.received + length bytes } in
      let last : Bool = not (write_udp os cur bytes log).0 || is_dns cur in
      let served = counted-IsServed s (s.received + length bytes) last in
      choose-Gives (IsServed s) (is_dns cur) _ _ (after_parse-Gives (IsServed s) _ _ _ served)
        served

  udp_received-IsServed :
      (s : UdpNode) (r : Received) (log : List Call)
      → Gives (IsServed s) (udp_received os fuel beyond s r log)
  udp_received-IsServed s (Received.failed retry) log = ground arith
  udp_received-IsServed s (Received.bytes []) log = ground arith
  udp_received-IsServed s (Received.bytes (b ∷ bytes)) log = udp_answer-IsServed s (b ∷ bytes) log

  pub check_udp_socket-IsServed :
      (s : UdpNode) (ev : Events) (log : List Call)
      → Gives (IsServed s) (check_udp_socket os fuel beyond s ev log)
  unfolding check_udp_socket
  check_udp_socket-IsServed s ev log =
      let s' : UdpNode = set_udp s (record (s.udp) { time = os.time log }) in
      let log' : List Call = Call.time ∷ log in
      let served =
        udp_received-IsServed s' (os.recv log' s.socket s.mss) (Call.recv s.socket s.mss ∷ log') in
      choose-Gives (IsServed s) (ev.epollerr) _ _ (ground arith) (
        choose-Gives (IsServed s) (ev.epollin) _ _ (timed-Gives s (os.time log) _ served)
          (record { same_key = refl; sound = λ h. h }))

module _ (os : Os) where
  icmp_received-IsPinged :
      (s : IcmpNode) (r : Received) (log : List Call) → IsPinged s (icmp_received os s r log).0
  unfolding icmp_answer
  icmp_received-IsPinged s (Received.failed retry) log = ground arith
  icmp_received-IsPinged s (Received.bytes []) log = ground arith
  icmp_received-IsPinged s (Received.bytes (b ∷ bytes)) log = ground arith

  pub check_icmp_socket-IsPinged :
      (s : IcmpNode) (ev : Events) (log : List Call) → IsPinged s (check_icmp_socket os s ev log).0
  unfolding check_icmp_socket
  check_icmp_socket-IsPinged s ev log =
      let s' : IcmpNode = record s { icmp = record (s.icmp) { time = os.time log } } in
      let log' : List Call = Call.time ∷ log in
      let size : ℕ = icmp_maxmsg s.version in
      let pinged =
        icmp_received-IsPinged s' (os.recv log' s.socket size) (Call.recv s.socket size ∷ log') in
      ground arith

  pub IsPinged-Tame :
      (s next : IcmpNode)
      → IsPinged s next
      → Tame (NgSession.icmp_session s) (NgSession.icmp_session next)
  IsPinged-Tame s next h =
      (λ q m. matches_IsPinged q s next h m, λ k. ap has_socket h.same_socket ∙ k)

  pub key-check_udp_session :
      (s : UdpNode) (count maxsessions : ℕ) (log : List Call)
      → udp_key (check_udp_session os s count maxsessions log).1.udp ≡ udp_key s.udp
  unfolding check_udp_session expire_udp close_udp reset_udp_usage
  key-check_udp_session s count maxsessions log = ground arith

  pub check_icmp_session_waits :
      (s : IcmpNode) (count maxsessions : ℕ) (log : List Call)
      → (check_icmp_session os s count maxsessions log).0 ≡ false
      → (check_icmp_session os s count maxsessions log).1 ≡ s
  unfolding check_icmp_session
  check_icmp_session_waits s count maxsessions log k = ground arith
