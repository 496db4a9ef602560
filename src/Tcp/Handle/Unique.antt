-- ===== src/Tcp/Handle/Unique.antt =====
-- No two sessions serve the same packets.
use tun2http.Prelude.{
  ℕ, ◌+◌, ◌≤◌, ◌≡◌, refl, true, Option, some, none, List, [], ◌∷◌, arith, if◌then◌else◌, Bool-cases,
  inl, inr,
}
use tun2http.Os.{Os, Call}
use tun2http.Session.{TcpSession, TcpNode, NgSession}
use tun2http.Session.Leaves.{Leaves}
use tun2http.Session.Bytes.{same_bytes_eq, same_bytes_refl}
use tun2http.Tcp.Header.{TcpPacket, Decoded, decoded, fault, unfinished, decode_options}
use tun2http.Packet.{get_default_mss}
use tun2http.Tcp.Open.{
  Opened, opened, refused, stuck, tcp_session_of, start_tcp, start_decoded, open_tcp,
}
use tun2http.Tcp.Open.Start.{Opens}
use tun2http.Tcp.Handle.{
  matches_tcp, handle_tcp_known, search_tcp, handle_tcp, prepend, or_opened, after_search,
}
use tun2http.Tcp.Handle.Keys.{key, key-handle_tcp_known}

-- How many sessions a packet would find.
abbrev pub serving : TcpPacket → List NgSession → ℕ
serving p [] = 0
serving p (NgSession.icmp_session s ∷ rest) = serving p rest
serving p (NgSession.udp_session s ∷ rest) = serving p rest
serving p (NgSession.tcp_session s ∷ rest) =
    let later = serving p rest in if matches_tcp p s.tcp then 1 + later else later

abbrev pub Unique : List NgSession → Type 0
Unique sessions = (p : TcpPacket) → serving p sessions ≤ 1

matches_key : (p : TcpPacket) (a b : TcpSession) → key a ≡ key b → matches_tcp p a ≡ matches_tcp p b
unfolding matches_tcp
matches_key p a b h = ground (arith, h)

-- A session that two packets find is found by both or by neither, whichever session they look for.
matches_both :
    (p q : TcpPacket) (cur s : TcpSession)
    → matches_tcp p cur ≡ true
    → matches_tcp q cur ≡ true
    → matches_tcp q s ≡ matches_tcp p s
unfolding matches_tcp
matches_both p q cur s hp hq = ground (
  arith,
  same_bytes_eq cur.saddr p.saddr,
  same_bytes_eq cur.saddr q.saddr,
  same_bytes_eq cur.daddr p.daddr,
  same_bytes_eq cur.daddr q.daddr,
)

serving_both :
    (p q : TcpPacket) (cur : TcpSession) (sessions : List NgSession)
    → matches_tcp p cur ≡ true
    → matches_tcp q cur ≡ true
    → serving q sessions ≡ serving p sessions
serving_both p q cur [] hp hq = refl
serving_both p q cur (NgSession.icmp_session s ∷ rest) hp hq = serving_both p q cur rest hp hq
serving_both p q cur (NgSession.udp_session s ∷ rest) hp hq = serving_both p q cur rest hp hq
serving_both p q cur (NgSession.tcp_session s ∷ rest) hp hq =
    ground (arith, matches_both p q cur s.tcp hp hq, serving_both p q cur rest hp hq)

-- What the search leaves: no session if there was none, else as many for any packet as before.
abbrev Searched : TcpPacket → List NgSession → Option (List NgSession × List Call) → Type 0
Searched p sessions none = serving p sessions ≡ 0
Searched p sessions (some (sessions', log)) =
    (q : TcpPacket) → serving q sessions' ≡ serving q sessions

prepend-Searched :
    (p : TcpPacket) (s : NgSession) (rest : List NgSession)
    (r : Option (List NgSession × List Call))
    → serving p (s ∷ []) ≡ 0
    → Searched p rest r
    → Searched p (s ∷ rest) (prepend s r)
prepend-Searched p (NgSession.icmp_session s) rest none h r = r
prepend-Searched p (NgSession.udp_session s) rest none h r = r
prepend-Searched p (NgSession.tcp_session s) rest none h r = ground arith
prepend-Searched p (NgSession.icmp_session s) rest (some (rest', log)) h r = r
prepend-Searched p (NgSession.udp_session s) rest (some (rest', log)) h r = r
prepend-Searched p (NgSession.tcp_session s) rest (some (rest', log)) h r =
    λ q. let e = r q in ground arith

module _ (os : Os) (inet_ntoa : List ℕ → List ℕ) where
  search_tcp-Searched :
      (p : TcpPacket) (sessions : List NgSession) (log : List Call)
      → Searched p sessions (search_tcp os inet_ntoa p sessions log)
  unfolding search_tcp
  search_tcp-Searched p [] log = refl
  search_tcp-Searched p (NgSession.icmp_session s ∷ rest) log =
      prepend-Searched p (NgSession.icmp_session s) rest _ refl (search_tcp-Searched p rest log)
  search_tcp-Searched p (NgSession.udp_session s ∷ rest) log =
      prepend-Searched p (NgSession.udp_session s) rest _ refl (search_tcp-Searched p rest log)
  search_tcp-Searched p (NgSession.tcp_session s ∷ rest) log =
      elim (Bool-cases (matches_tcp p s.tcp)) [
        | inl e ↦ rw e (λ q. ground (
          arith,
          matches_key q (handle_tcp_known os inet_ntoa p s log).0.tcp s.tcp
              (key-handle_tcp_known os inet_ntoa p s log),
        ))
        | inr e ↦ rw e (
            prepend-Searched p (NgSession.tcp_session s) rest _ (rw e refl)
              (search_tcp-Searched p rest log))
      ]

-- The session that is opened is found by its packet.
Serves : TcpPacket → TcpNode → Type 0
Serves p s = matches_tcp p s.tcp ≡ true

module _ (os : Os) where
  start_tcp-Serves :
      (p : TcpPacket) (mss ws : ℕ) (log : List Call) → Opens (Serves p) (start_tcp os p mss ws log)
  unfolding start_tcp tcp_session_of matches_tcp Serves
  start_tcp-Serves p mss ws log = ground (arith, same_bytes_refl p.saddr, same_bytes_refl p.daddr)

  start_decoded-Serves :
      (p : TcpPacket) (d : Decoded) (log : List Call) → Opens (Serves p) (start_decoded os p d log)
  start_decoded-Serves p (decoded mss ws) log = start_tcp-Serves p mss ws log
  start_decoded-Serves p fault log = ground arith
  start_decoded-Serves p unfinished log = ground arith

  open_tcp-Serves : (p : TcpPacket) (log : List Call) → Opens (Serves p) (open_tcp os p log)
  unfolding open_tcp
  open_tcp-Serves p log = ground (
    arith,
    start_decoded-Serves p
        (decode_options p.optlen p.optlen p.options (get_default_mss p.version) 0) log,
  )

opened-Unique :
    (p : TcpPacket) (sessions : List NgSession) (log : List Call) (o : Opened)
    → Unique sessions
    → serving p sessions ≡ 0
    → Opens (Serves p) o
    → Leaves Unique (or_opened sessions o)
unfolding Serves
opened-Unique p sessions log (opened s log') u n h =
    λ q. ground (arith, u q, serving_both p q s.tcp sessions h)
opened-Unique p sessions log (refused log') u n h = u
opened-Unique p sessions log stuck u n h = ground arith

after_search-Unique :
    (os : Os) (p : TcpPacket) (sessions : List NgSession) (log : List Call)
    (r : Option (List NgSession × List Call))
    → Unique sessions
    → Searched p sessions r
    → Leaves Unique (after_search os p sessions log r)
after_search-Unique os p sessions log none u h =
    opened-Unique p sessions log (open_tcp os p log) u h (open_tcp-Serves os p log)
after_search-Unique os p sessions log (some (sessions', log')) u h =
    λ q. let e = h q in let l = u q in ground arith

-- If no two sessions serve the same packets, then so it is after any packet whose handler ends: a session is opened only
-- where none was found, and no packet changes the addresses and ports of a session.
pub handle_tcp-Unique :
    (os : Os) (inet_ntoa : List ℕ → List ℕ) (p : TcpPacket) (sessions : List NgSession)
    (log : List Call)
    → Unique sessions
    → Leaves Unique (handle_tcp os inet_ntoa p sessions log)
unfolding handle_tcp
handle_tcp-Unique os inet_ntoa p sessions log u = ground (
  arith,
  after_search-Unique os p sessions log (search_tcp os inet_ntoa p sessions log) u
      (search_tcp-Searched os inet_ntoa p sessions log),
)
