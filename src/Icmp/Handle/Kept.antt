-- ===== src/Icmp/Handle/Kept.antt =====
-- What an ICMP packet leaves of the list of sessions.
use tun2http.Prelude.{
  ℕ, ◌+◌, ◌≤◌, ◌≡◌, refl, ◌∙◌, ap, true, Option, some, none, List, [], ◌∷◌, ◌==◌, arith, ==_refl,
  if◌then◌else◌, Bool-cases, Option-cases, inl, inr,
}
use tun2http.Os.{Os, Call}
use tun2http.Sockets.{open_icmp_socket}
use tun2http.Session.{IcmpSession, IcmpNode, NgSession, has_socket}
use tun2http.Session.Bytes.{same_bytes_eq, same_bytes_refl}
use tun2http.Session.Leaves.{Comes}
use tun2http.Icmp.Write.{icmp_type}
use tun2http.Icmp.Handle.{
  IcmpPacket, icmp_echo, matches_icmp, find_icmp, put_icmp, icmp_session_of, icmp_events,
  after_open_icmp, after_find_icmp, handle_icmp,
}
use tun2http.Icmp.Handle.Send.{IsPinged, send_icmp-IsPinged}

-- How many sessions a packet would find.
abbrev pub icmp_serving : IcmpPacket → List NgSession → ℕ
icmp_serving p [] = 0
icmp_serving p (NgSession.udp_session s ∷ rest) = icmp_serving p rest
icmp_serving p (NgSession.tcp_session s ∷ rest) = icmp_serving p rest
icmp_serving p (NgSession.icmp_session s ∷ rest) =
    let later = icmp_serving p rest in if matches_icmp p s.icmp then 1 + later else later

-- Every ICMP session has its socket.
abbrev pub AllIcmp : List NgSession → Type 0
AllIcmp [] = Unit {0}
AllIcmp (NgSession.udp_session s ∷ rest) = AllIcmp rest
AllIcmp (NgSession.tcp_session s ∷ rest) = AllIcmp rest
AllIcmp (NgSession.icmp_session s ∷ rest) = (has_socket s.socket ≡ true) × AllIcmp rest

-- The sessions of the other protocols.
abbrev pub not_icmp : List NgSession → List NgSession
not_icmp [] = []
not_icmp (NgSession.udp_session s ∷ rest) = NgSession.udp_session s ∷ not_icmp rest
not_icmp (NgSession.tcp_session s ∷ rest) = NgSession.tcp_session s ∷ not_icmp rest
not_icmp (NgSession.icmp_session s ∷ rest) = not_icmp rest

-- What an ICMP packet keeps of a list.
pub record IcmpKept (before after : List NgSession) : Type 0 where
  pub unique :
      ((q : IcmpPacket) → icmp_serving q before ≤ 1) → (q : IcmpPacket) → icmp_serving q after ≤ 1
  pub sockets : AllIcmp before → AllIcmp after
  pub same_others : not_icmp after ≡ not_icmp before

pub matches_IsPinged :
    (q : IcmpPacket) (s next : IcmpNode)
    → IsPinged s next
    → matches_icmp q next.icmp ≡ true
    → matches_icmp q s.icmp ≡ true
unfolding matches_icmp
matches_IsPinged q s next h m =
    ground (arith, h.same_version, h.same_saddr, h.same_daddr, h.stays_stopped)

icmp_serving-put_icmp :
    (p q : IcmpPacket) (s next : IcmpNode) (sessions : List NgSession)
    → IsPinged s next
    → find_icmp p sessions ≡ some s
    → icmp_serving q (put_icmp p next sessions) ≤ icmp_serving q sessions
unfolding find_icmp put_icmp
icmp_serving-put_icmp p q s next [] h f = omega arith
icmp_serving-put_icmp p q s next (NgSession.udp_session t ∷ rest) h f =
    icmp_serving-put_icmp p q s next rest h f
icmp_serving-put_icmp p q s next (NgSession.tcp_session t ∷ rest) h f =
    icmp_serving-put_icmp p q s next rest h f
icmp_serving-put_icmp p q s next (NgSession.icmp_session t ∷ rest) h f =
    ground (arith, matches_IsPinged q s next h, icmp_serving-put_icmp p q s next rest h)

not_icmp-put_icmp :
    (p : IcmpPacket) (next : IcmpNode) (sessions : List NgSession)
    → not_icmp (put_icmp p next sessions) ≡ not_icmp sessions
unfolding put_icmp
not_icmp-put_icmp p next [] = refl
not_icmp-put_icmp p next (NgSession.udp_session t ∷ rest) =
    ap (λ r. NgSession.udp_session t ∷ r) (not_icmp-put_icmp p next rest)
not_icmp-put_icmp p next (NgSession.tcp_session t ∷ rest) =
    ap (λ r. NgSession.tcp_session t ∷ r) (not_icmp-put_icmp p next rest)
not_icmp-put_icmp p next (NgSession.icmp_session t ∷ rest) =
    elim (Bool-cases (matches_icmp p t.icmp)) [
      | inl e ↦ rw e refl
      | inr e ↦ rw e (not_icmp-put_icmp p next rest)
    ]

AllIcmp-find_icmp :
    (p : IcmpPacket) (s : IcmpNode) (sessions : List NgSession)
    → find_icmp p sessions ≡ some s
    → AllIcmp sessions
    → has_socket s.socket ≡ true
unfolding find_icmp
AllIcmp-find_icmp p s [] f a = ground arith
AllIcmp-find_icmp p s (NgSession.udp_session t ∷ rest) f a = AllIcmp-find_icmp p s rest f a
AllIcmp-find_icmp p s (NgSession.tcp_session t ∷ rest) f a = AllIcmp-find_icmp p s rest f a
AllIcmp-find_icmp p s (NgSession.icmp_session t ∷ rest) f a =
    elim (Bool-cases (matches_icmp p t.icmp)) [
      | inl e ↦ let here = a.0 in ground arith
      | inr e ↦ AllIcmp-find_icmp p s rest (ground arith) a.1
    ]

AllIcmp-put_icmp :
    (p : IcmpPacket) (next : IcmpNode) (sessions : List NgSession)
    → has_socket next.socket ≡ true
    → AllIcmp sessions
    → AllIcmp (put_icmp p next sessions)
unfolding put_icmp
AllIcmp-put_icmp p next [] h a = tt
AllIcmp-put_icmp p next (NgSession.udp_session t ∷ rest) h a = AllIcmp-put_icmp p next rest h a
AllIcmp-put_icmp p next (NgSession.tcp_session t ∷ rest) h a = AllIcmp-put_icmp p next rest h a
AllIcmp-put_icmp p next (NgSession.icmp_session t ∷ rest) h a =
    elim (Bool-cases (matches_icmp p t.icmp)) [
      | inl e ↦ rw e (h, a.1)
      | inr e ↦ rw e (a.0, AllIcmp-put_icmp p next rest h a.1)
    ]

find_icmp-serving :
    (p : IcmpPacket) (sessions : List NgSession)
    → find_icmp p sessions ≡ none
    → icmp_serving p sessions ≡ 0
unfolding find_icmp
find_icmp-serving p [] h = refl
find_icmp-serving p (NgSession.udp_session t ∷ rest) h = find_icmp-serving p rest h
find_icmp-serving p (NgSession.tcp_session t ∷ rest) h = find_icmp-serving p rest h
find_icmp-serving p (NgSession.icmp_session t ∷ rest) h = ground (arith, find_icmp-serving p rest)

-- A session that two packets find is found by both or by neither, whichever session they look for.
icmp_matches_both :
    (p q : IcmpPacket) (cur s : IcmpSession)
    → matches_icmp p cur ≡ true
    → matches_icmp q cur ≡ true
    → matches_icmp q s ≡ matches_icmp p s
unfolding matches_icmp
icmp_matches_both p q cur s hp hq = ground (
  arith,
  same_bytes_eq cur.saddr p.saddr,
  same_bytes_eq cur.saddr q.saddr,
  same_bytes_eq cur.daddr p.daddr,
  same_bytes_eq cur.daddr q.daddr,
)

icmp_serving_both :
    (p q : IcmpPacket) (cur : IcmpSession) (sessions : List NgSession)
    → matches_icmp p cur ≡ true
    → matches_icmp q cur ≡ true
    → icmp_serving q sessions ≡ icmp_serving p sessions
icmp_serving_both p q cur [] hp hq = refl
icmp_serving_both p q cur (NgSession.udp_session s ∷ rest) hp hq =
    icmp_serving_both p q cur rest hp hq
icmp_serving_both p q cur (NgSession.tcp_session s ∷ rest) hp hq =
    icmp_serving_both p q cur rest hp hq
icmp_serving_both p q cur (NgSession.icmp_session s ∷ rest) hp hq =
    ground (arith, icmp_matches_both p q cur s.icmp hp hq, icmp_serving_both p q cur rest hp hq)

icmp_session_of-matches : (p : IcmpPacket) (now : ℕ) → matches_icmp p (icmp_session_of p now) ≡ true
unfolding matches_icmp icmp_session_of
icmp_session_of-matches p now =
    ground (arith, ==_refl p.version, same_bytes_refl p.saddr, same_bytes_refl p.daddr)

found-IcmpKept :
    (p : IcmpPacket) (s next : IcmpNode) (sessions : List NgSession)
    → find_icmp p sessions ≡ some s
    → IsPinged s next
    → IcmpKept sessions (put_icmp p next sessions)
found-IcmpKept p s next sessions f h = record {
  unique =
      λ u q. let l = u q in let l' = icmp_serving-put_icmp p q s next sessions h f in omega arith;
  sockets = λ a.
      AllIcmp-put_icmp p next sessions
        (ap has_socket h.same_socket ∙ AllIcmp-find_icmp p s sessions f a) a;
  same_others = not_icmp-put_icmp p next sessions;
}

new-IcmpKept :
    (p : IcmpPacket) (s next : IcmpNode) (sessions : List NgSession)
    → find_icmp p sessions ≡ none
    → matches_icmp p s.icmp ≡ true
    → has_socket s.socket ≡ true
    → IsPinged s next
    → IcmpKept sessions (NgSession.icmp_session next ∷ sessions)
new-IcmpKept p s next sessions f m k h =
    let none_found = find_icmp-serving p sessions f in
    record {
      unique = λ u q.
          let l = u q in
          ground (arith, matches_IsPinged q s next h, icmp_serving_both p q s.icmp sessions m);
      sockets = λ a. (ap has_socket h.same_socket ∙ k, a);
      same_others = refl;
    }

same-IcmpKept : (sessions : List NgSession) → IcmpKept sessions sessions
same-IcmpKept sessions = record { unique = λ u. u; sockets = λ a. a; same_others = refl }

module _ (os : Os) where
  after_open_icmp-IcmpKept :
      (p : IcmpPacket) (sessions : List NgSession) (log : List Call) (made : Option ℕ × List Call)
      → find_icmp p sessions ≡ none
      → Comes (IcmpKept sessions) (after_open_icmp os p sessions log made)
  after_open_icmp-IcmpKept p sessions log (none, log') f = same-IcmpKept sessions
  after_open_icmp-IcmpKept p sessions log (some k, log') f =
      let s : IcmpNode = record {
        icmp = icmp_session_of p (os.time log);
        socket = some k;
        events = icmp_events;
      } in
      new-IcmpKept p s _ sessions f (icmp_session_of-matches p (os.time log)) refl
        (send_icmp-IsPinged os p s (Call.epoll_add (some k) icmp_events ∷ log')).0

  after_find_icmp-IcmpKept :
      (p : IcmpPacket) (sessions : List NgSession) (log : List Call)
      → Comes (IcmpKept sessions) (after_find_icmp os p sessions log (find_icmp p sessions))
  after_find_icmp-IcmpKept p sessions log = elim (Option-cases (find_icmp p sessions)) [
    | inl e ↦ rw e (
        after_open_icmp-IcmpKept p sessions log (open_icmp_socket os p.version (Call.time ∷ log)) e)
    | inr (s, e) ↦ rw e (found-IcmpKept p s _ sessions e (send_icmp-IsPinged os p s log).0)
  ]

  -- An ICMP packet, whose handler always comes back, keeps the list of sessions in shape: if no two
  -- ICMP sessions that have not been stopped serve the same packets, then so it is after it; if every
  -- ICMP session has a socket, then so it is after it; and the sessions of other protocols are the
  -- same, in the same order.
  pub handle_icmp-IcmpKept :
      (p : IcmpPacket) (sessions : List NgSession) (log : List Call)
      → Comes (IcmpKept sessions) (handle_icmp os p sessions log)
  unfolding handle_icmp
  handle_icmp-IcmpKept p sessions log = elim (Bool-cases (icmp_type p.message == icmp_echo)) [
    | inr other ↦ rw other (same-IcmpKept sessions)
    | inl echo ↦ rw echo (after_find_icmp-IcmpKept p sessions log)
  ]
