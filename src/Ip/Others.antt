-- ===== src/Ip/Others.antt =====
-- What a TCP packet leaves of the sessions of other protocols.
use tun2http.Prelude.{
  ℕ, ◌≡◌, refl, ap, Option, none, some, List, [], ◌∷◌, Bool-cases, inl, inr, arith,
}
use tun2http.Os.{Os, Call}
use tun2http.Session.{NgSession}
use tun2http.Session.Leaves.{Leaves}
use tun2http.Tcp.Header.{TcpPacket}
use tun2http.Tcp.Open.{Opened, opened, refused, stuck, open_tcp}
use tun2http.Tcp.Handle.{matches_tcp, search_tcp, handle_tcp, prepend, or_opened, after_search}
use tun2http.Ip.Parts.{not_tcp}

-- The search leaves the sessions of other protocols as they are.
abbrev SameOthers : List NgSession → Option (List NgSession × List Call) → Type 0
SameOthers sessions none = Unit {0}
SameOthers sessions (some (after, log)) = not_tcp after ≡ not_tcp sessions

prepend-SameOthers :
    (s : NgSession) (rest : List NgSession) (r : Option (List NgSession × List Call))
    → SameOthers rest r
    → SameOthers (s ∷ rest) (prepend s r)
prepend-SameOthers s rest none h = tt
prepend-SameOthers (NgSession.icmp_session s) rest (some (after, log)) h =
    ap (λ r. NgSession.icmp_session s ∷ r) h
prepend-SameOthers (NgSession.udp_session s) rest (some (after, log)) h =
    ap (λ r. NgSession.udp_session s ∷ r) h
prepend-SameOthers (NgSession.tcp_session s) rest (some (after, log)) h = h

module _ (os : Os) (inet_ntoa : List ℕ → List ℕ) where
  search_tcp-SameOthers :
      (p : TcpPacket) (sessions : List NgSession) (log : List Call)
      → SameOthers sessions (search_tcp os inet_ntoa p sessions log)
  unfolding search_tcp
  search_tcp-SameOthers p [] log = tt
  search_tcp-SameOthers p (NgSession.icmp_session s ∷ rest) log =
      prepend-SameOthers (NgSession.icmp_session s) rest _ (search_tcp-SameOthers p rest log)
  search_tcp-SameOthers p (NgSession.udp_session s ∷ rest) log =
      prepend-SameOthers (NgSession.udp_session s) rest _ (search_tcp-SameOthers p rest log)
  search_tcp-SameOthers p (NgSession.tcp_session s ∷ rest) log =
      elim (Bool-cases (matches_tcp p s.tcp)) [
        | inl e ↦ rw e refl
        | inr e ↦
            rw e (
              prepend-SameOthers (NgSession.tcp_session s) rest _
                (search_tcp-SameOthers p rest log))
      ]

  or_opened-others :
      (sessions : List NgSession) (o : Opened)
      → Leaves (λ after. not_tcp after ≡ not_tcp sessions) (or_opened sessions o)
  or_opened-others sessions (opened s log) = refl
  or_opened-others sessions (refused log) = refl
  or_opened-others sessions stuck = tt

  after_search-others :
      (p : TcpPacket) (sessions : List NgSession) (log : List Call)
      (r : Option (List NgSession × List Call))
      → SameOthers sessions r
      → Leaves (λ after. not_tcp after ≡ not_tcp sessions) (after_search os p sessions log r)
  after_search-others p sessions log none h = or_opened-others sessions (open_tcp os p log)
  after_search-others p sessions log (some (after, log')) h = h

  -- A TCP packet leaves the sessions of other protocols as they are.
  pub handle_tcp-others :
      (p : TcpPacket) (sessions : List NgSession) (log : List Call)
      → Leaves (λ after. not_tcp after ≡ not_tcp sessions) (handle_tcp os inet_ntoa p sessions log)
  unfolding handle_tcp
  handle_tcp-others p sessions log = ground (
    arith,
    after_search-others p sessions log (search_tcp os inet_ntoa p sessions log)
        (search_tcp-SameOthers p sessions log),
  )
