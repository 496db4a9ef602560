-- ===== src/Udp/Handle/Unique.antt =====
-- What a UDP packet leaves of the list of sessions.
use tun2http.Prelude.{
  ℕ, ◌+◌, ◌≤◌, ◌≡◌, refl, ◌∙◌, ap, true, Option, some, none, List, [], ◌∷◌, arith, if◌then◌else◌,
  ==_refl, Bool-cases, Option-cases, inl, inr,
}
use tun2http.Os.{Os, Call}
use tun2http.Sockets.{open_udp_socket}
use tun2http.Session.{UdpSession, UdpNode, UdpState, NgSession, in_udp}
use tun2http.Session.Bytes.{same_bytes_eq, same_bytes_refl}
use tun2http.Session.Leaves.{Leaves}
use tun2http.Udp.Check.Life.{IsUdpSound}
use tun2http.Udp.Handle.{
  UdpPacket, matches_udp, find_udp, put_udp, udp_session_of, udp_events, handle_udp_known,
  handle_udp_new, or_hung, handle_udp,
}
use tun2http.Udp.Handle.Send.{IsKept, Gives, handle_udp_known-IsKept}

-- How many sessions a packet would find.
abbrev pub udp_serving : UdpPacket → List NgSession → ℕ
udp_serving p [] = 0
udp_serving p (NgSession.icmp_session s ∷ rest) = udp_serving p rest
udp_serving p (NgSession.tcp_session s ∷ rest) = udp_serving p rest
udp_serving p (NgSession.udp_session s ∷ rest) =
    let later = udp_serving p rest in if matches_udp p s.udp then 1 + later else later

-- The UDP sessions are sound.
abbrev pub AllUdp : List NgSession → Type 0
AllUdp [] = Unit {0}
AllUdp (NgSession.icmp_session s ∷ rest) = AllUdp rest
AllUdp (NgSession.tcp_session s ∷ rest) = AllUdp rest
AllUdp (NgSession.udp_session s ∷ rest) = IsUdpSound s × AllUdp rest

-- The sessions of the other protocols.
abbrev pub others : List NgSession → List NgSession
others [] = []
others (NgSession.icmp_session s ∷ rest) = NgSession.icmp_session s ∷ others rest
others (NgSession.tcp_session s ∷ rest) = NgSession.tcp_session s ∷ others rest
others (NgSession.udp_session s ∷ rest) = others rest

-- What a UDP packet keeps of a list.
pub record UdpKept (before after : List NgSession) : Type 0 where
  pub unique :
      ((q : UdpPacket) → udp_serving q before ≤ 1) → (q : UdpPacket) → udp_serving q after ≤ 1
  pub sound : AllUdp before → AllUdp after
  pub same_others : others after ≡ others before

matches_IsKept :
    (q : UdpPacket) (s next : UdpNode)
    → IsKept s next
    → matches_udp q next.udp ≡ matches_udp q s.udp
unfolding matches_udp
matches_IsKept q s next h =
    ground (arith, h.same_version, h.same_source, h.same_dest, h.same_saddr, h.same_daddr)

udp_serving-put_udp :
    (p q : UdpPacket) (s next : UdpNode) (sessions : List NgSession)
    → IsKept s next
    → find_udp p sessions ≡ some s
    → udp_serving q (put_udp p next sessions) ≡ udp_serving q sessions
unfolding find_udp put_udp
udp_serving-put_udp p q s next [] h f = refl
udp_serving-put_udp p q s next (NgSession.icmp_session t ∷ rest) h f =
    udp_serving-put_udp p q s next rest h f
udp_serving-put_udp p q s next (NgSession.tcp_session t ∷ rest) h f =
    udp_serving-put_udp p q s next rest h f
udp_serving-put_udp p q s next (NgSession.udp_session t ∷ rest) h f =
    ground (arith, matches_IsKept q s next h, udp_serving-put_udp p q s next rest h)

others-put_udp :
    (p : UdpPacket) (next : UdpNode) (sessions : List NgSession)
    → others (put_udp p next sessions) ≡ others sessions
unfolding put_udp
others-put_udp p next [] = refl
others-put_udp p next (NgSession.icmp_session t ∷ rest) =
    ap (λ r. NgSession.icmp_session t ∷ r) (others-put_udp p next rest)
others-put_udp p next (NgSession.tcp_session t ∷ rest) =
    ap (λ r. NgSession.tcp_session t ∷ r) (others-put_udp p next rest)
others-put_udp p next (NgSession.udp_session t ∷ rest) = elim (Bool-cases (matches_udp p t.udp)) [
  | inl e ↦ rw e refl
  | inr e ↦ rw e (others-put_udp p next rest)
]

AllUdp-put_udp :
    (p : UdpPacket) (next : UdpNode) (sessions : List NgSession)
    → IsUdpSound next
    → AllUdp sessions
    → AllUdp (put_udp p next sessions)
unfolding put_udp
AllUdp-put_udp p next [] h a = tt
AllUdp-put_udp p next (NgSession.icmp_session t ∷ rest) h a = AllUdp-put_udp p next rest h a
AllUdp-put_udp p next (NgSession.tcp_session t ∷ rest) h a = AllUdp-put_udp p next rest h a
AllUdp-put_udp p next (NgSession.udp_session t ∷ rest) h a =
    elim (Bool-cases (matches_udp p t.udp)) [
      | inl e ↦ rw e (h, a.1)
      | inr e ↦ rw e (a.0, AllUdp-put_udp p next rest h a.1)
    ]

-- An active session stays sound.
IsKept-IsUdpSound :
    (s next : UdpNode) → in_udp s.state UdpState.udp_active ≡ true → IsKept s next → IsUdpSound next
IsKept-IsUdpSound s next active h =
    let live = h.live active in record { released = λ e. absurd (ground arith) }

find_udp-serving :
    (p : UdpPacket) (sessions : List NgSession)
    → find_udp p sessions ≡ none
    → udp_serving p sessions ≡ 0
unfolding find_udp
find_udp-serving p [] h = refl
find_udp-serving p (NgSession.icmp_session t ∷ rest) h = find_udp-serving p rest h
find_udp-serving p (NgSession.tcp_session t ∷ rest) h = find_udp-serving p rest h
find_udp-serving p (NgSession.udp_session t ∷ rest) h = ground (arith, find_udp-serving p rest)

-- A session that two packets find is found by both or by neither, whichever session they look for.
udp_matches_both :
    (p q : UdpPacket) (cur s : UdpSession)
    → matches_udp p cur ≡ true
    → matches_udp q cur ≡ true
    → matches_udp q s ≡ matches_udp p s
unfolding matches_udp
udp_matches_both p q cur s hp hq = ground (
  arith,
  same_bytes_eq cur.saddr p.saddr,
  same_bytes_eq cur.saddr q.saddr,
  same_bytes_eq cur.daddr p.daddr,
  same_bytes_eq cur.daddr q.daddr,
)

udp_serving_both :
    (p q : UdpPacket) (cur : UdpSession) (sessions : List NgSession)
    → matches_udp p cur ≡ true
    → matches_udp q cur ≡ true
    → udp_serving q sessions ≡ udp_serving p sessions
udp_serving_both p q cur [] hp hq = refl
udp_serving_both p q cur (NgSession.icmp_session s ∷ rest) hp hq =
    udp_serving_both p q cur rest hp hq
udp_serving_both p q cur (NgSession.tcp_session s ∷ rest) hp hq =
    udp_serving_both p q cur rest hp hq
udp_serving_both p q cur (NgSession.udp_session s ∷ rest) hp hq =
    ground (arith, udp_matches_both p q cur s.udp hp hq, udp_serving_both p q cur rest hp hq)

udp_session_of-matches : (p : UdpPacket) (now : ℕ) → matches_udp p (udp_session_of p now) ≡ true
unfolding matches_udp udp_session_of
udp_session_of-matches p now = ground (
  arith,
  ==_refl p.version,
  ==_refl p.source,
  ==_refl p.dest,
  same_bytes_refl p.saddr,
  same_bytes_refl p.daddr,
)

find_udp-active :
    (p : UdpPacket) (s next : UdpNode) (sessions : List NgSession)
    → find_udp p sessions ≡ some s
    → in_udp s.state UdpState.udp_active ≡ true
    → IsKept s next
    → UdpKept sessions (put_udp p next sessions)
find_udp-active p s next sessions f active h = record {
  unique = λ u q. rw (udp_serving-put_udp p q s next sessions h f) (u q);
  sound = λ a. AllUdp-put_udp p next sessions (IsKept-IsUdpSound s next active h) a;
  same_others = others-put_udp p next sessions;
}

new-UdpKept :
    (p : UdpPacket) (s next : UdpNode) (sessions : List NgSession)
    → find_udp p sessions ≡ none
    → matches_udp p s.udp ≡ true
    → in_udp s.state UdpState.udp_active ≡ true
    → IsKept s next
    → UdpKept sessions (NgSession.udp_session next ∷ sessions)
new-UdpKept p s next sessions f m active h =
    let none_found = find_udp-serving p sessions f in
    let found : matches_udp p next.udp ≡ true = matches_IsKept p s next h ∙ m in
    record {
      unique = λ u q. let l = u q in ground (arith, udp_serving_both p q next.udp sessions found);
      sound = λ a. (IsKept-IsUdpSound s next active h, a);
      same_others = refl;
    }

same-UdpKept : (sessions : List NgSession) → UdpKept sessions sessions
same-UdpKept sessions = record { unique = λ u. u; sound = λ a. a; same_others = refl }

module _ (os : Os) (fuel : ℕ) (beyond : ℕ → ℕ) where
  or_hung-UdpKept :
      (before : List NgSession) (after : UdpNode → List NgSession) (s : UdpNode)
      (r : Option (UdpNode × List Call))
      → ((next : UdpNode) → IsKept s next → UdpKept before (after next))
      → Gives (IsKept s) r
      → Leaves (UdpKept before) (or_hung os fuel beyond after r)
  or_hung-UdpKept before after s none h g = tt
  or_hung-UdpKept before after s (some (next, log)) h g = h next g

  handle_udp_new-UdpKept :
      (p : UdpPacket) (sessions : List NgSession) (log : List Call)
      → find_udp p sessions ≡ none
      → Leaves (UdpKept sessions) (handle_udp_new os fuel beyond p sessions log)
  unfolding handle_udp_new
  handle_udp_new-UdpKept p sessions log f =
      let made : Option ℕ × List Call = open_udp_socket os p.version p.daddr (Call.time ∷ log) in
      elim (Option-cases made.0) [
        | inl e ↦ rw e (same-UdpKept sessions)
        | inr (k, e) ↦
            let s : UdpNode = record {
              udp = udp_session_of p (os.time log);
              socket = some k;
              events = udp_events;
            } in
            let log' : List Call = Call.epoll_add (some k) udp_events ∷ made.1 in
            rw e (
              or_hung-UdpKept sessions (λ s'. NgSession.udp_session s' ∷ sessions) s
                (handle_udp_known os fuel beyond p s log')
                (λ next h.
                  new-UdpKept p s next sessions f (udp_session_of-matches p (os.time log))
                    (unfold udp_session_of in refl) h)
                (handle_udp_known-IsKept os fuel beyond p s log'))
      ]

  -- A UDP packet whose handler comes back keeps the list of sessions in shape: if no two UDP
  -- sessions serve the same packets, then so it is after it; if no UDP session that is closed or
  -- blocked has a socket, then so it is after it; and the sessions of other protocols are the same,
  -- in the same order.
  pub handle_udp-UdpKept :
      (p : UdpPacket) (sessions : List NgSession) (log : List Call)
      → Leaves (UdpKept sessions) (handle_udp os fuel beyond p sessions log)
  unfolding handle_udp
  handle_udp-UdpKept p sessions log = elim (Option-cases (find_udp p sessions)) [
    | inl e ↦ rw e (handle_udp_new-UdpKept p sessions log e)
    | inr (s, e) ↦ elim (Bool-cases (in_udp s.state UdpState.udp_active)) [
      | inr idle ↦ rw (e, idle) (same-UdpKept sessions)
      | inl active ↦
          rw (e, active)
            (or_hung-UdpKept sessions (λ s'. put_udp p s' sessions) s
              (handle_udp_known os fuel beyond p s log)
              (λ next h. find_udp-active p s next sessions e active h)
              (handle_udp_known-IsKept os fuel beyond p s log))
    ]
  ]
