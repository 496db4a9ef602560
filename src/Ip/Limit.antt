-- ===== src/Ip/Limit.antt =====
-- The limit on the number of sessions in `handle_ip` of ip.c.
use tun2http.Prelude.{
  ℕ, suc, ◌≤◌, ◌≡◌, refl, ap, true, false, Option, none, some, List, [], ◌∷◌, Bool-cases, inl, inr,
  arith,
}
use tun2http.Os.{Os, Call}
use tun2http.Session.{NgSession}
use tun2http.Session.Leaves.{Leaves}
use tun2http.Tcp.Header.{TcpPacket, tcp_view}
use tun2http.Tcp.Open.{open_tcp}
use tun2http.Tcp.Handle.{matches_tcp, search_tcp, handle_tcp, prepend, after_search}
use tun2http.Udp.Handle.{UdpPacket, has_udp_session, handle_udp}
use tun2http.Icmp.Handle.{IcmpPacket}
use tun2http.Ip.{Target, target, dropped, outside, unfinished, ip_target, udp_view, icmp_view}
use tun2http.Ip.Handle.{Settings, ip_icmp, ip_udp, ip_tcp, dispatch_ip, after_target, handle_ip}
use tun2http.Udp.Handle.{find_udp, put_udp, handle_udp_known, or_hung, is_found}
use tun2http.Session.{UdpNode}
use tun2http.Prelude.{length, Option-cases}

-- No more sessions than before.
abbrev NoMore : List NgSession → List NgSession → Type 0
NoMore before after = length after ≤ length before

length-put_udp :
    (p : UdpPacket) (cur : UdpNode) (sessions : List NgSession)
    → length (put_udp p cur sessions) ≡ length sessions
unfolding put_udp
length-put_udp p cur [] = refl
length-put_udp p cur (NgSession.icmp_session s ∷ rest) = ap suc (length-put_udp p cur rest)
length-put_udp p cur (NgSession.tcp_session s ∷ rest) = ap suc (length-put_udp p cur rest)
length-put_udp p cur (NgSession.udp_session s ∷ rest) = ground (arith, length-put_udp p cur rest)

abbrev SearchedNoMore : List NgSession → Option (List NgSession × List Call) → Type 0
SearchedNoMore sessions none = Unit {0}
SearchedNoMore sessions (some (after, log)) = length after ≡ length sessions

prepend-SearchedNoMore :
    (s : NgSession) (rest : List NgSession) (r : Option (List NgSession × List Call))
    → SearchedNoMore rest r
    → SearchedNoMore (s ∷ rest) (prepend s r)
prepend-SearchedNoMore s rest none h = tt
prepend-SearchedNoMore s rest (some (after, log)) h = ap suc h

module _ (os : Os) (inet_ntoa : List ℕ → List ℕ) where
  search_tcp-NoMore :
      (p : TcpPacket) (sessions : List NgSession) (log : List Call)
      → SearchedNoMore sessions (search_tcp os inet_ntoa p sessions log)
  unfolding search_tcp
  search_tcp-NoMore p [] log = tt
  search_tcp-NoMore p (NgSession.icmp_session s ∷ rest) log =
      prepend-SearchedNoMore (NgSession.icmp_session s) rest _ (search_tcp-NoMore p rest log)
  search_tcp-NoMore p (NgSession.udp_session s ∷ rest) log =
      prepend-SearchedNoMore (NgSession.udp_session s) rest _ (search_tcp-NoMore p rest log)
  search_tcp-NoMore p (NgSession.tcp_session s ∷ rest) log =
      elim (Bool-cases (matches_tcp p s.tcp)) [
        | inl e ↦ rw e refl
        | inr e ↦
            rw e (
              prepend-SearchedNoMore (NgSession.tcp_session s) rest _
                (search_tcp-NoMore p rest log))
      ]

  after_search-NoMore :
      (p : TcpPacket) (sessions : List NgSession) (log : List Call)
      (r : Option (List NgSession × List Call))
      → p.syn ≡ false
      → SearchedNoMore sessions r
      → Leaves (NoMore sessions) (after_search os p sessions log r)
  unfolding open_tcp
  after_search-NoMore p sessions log none syn h = ground arith
  after_search-NoMore p sessions log (some (after, log')) syn h = omega arith

  handle_tcp-NoMore :
      (p : TcpPacket) (sessions : List NgSession) (log : List Call)
      → p.syn ≡ false
      → Leaves (NoMore sessions) (handle_tcp os inet_ntoa p sessions log)
  unfolding handle_tcp
  handle_tcp-NoMore p sessions log syn = ground (
    arith,
    after_search-NoMore p sessions log (search_tcp os inet_ntoa p sessions log) syn
        (search_tcp-NoMore p sessions log),
  )

module _ (os : Os) (fuel : ℕ) (beyond : ℕ → ℕ) where
  or_hung-NoMore :
      (p : UdpPacket) (sessions : List NgSession) (r : Option (UdpNode × List Call))
      → Leaves (NoMore sessions) (or_hung os fuel beyond (λ s'. put_udp p s' sessions) r)
  or_hung-NoMore p sessions none = tt
  or_hung-NoMore p sessions (some (s, log)) = omega (arith, length-put_udp p s sessions)

  handle_udp-NoMore :
      (p : UdpPacket) (sessions : List NgSession) (log : List Call)
      → is_found (find_udp p sessions) ≡ true
      → Leaves (NoMore sessions) (handle_udp os fuel beyond p sessions log)
  unfolding handle_udp
  handle_udp-NoMore p sessions log found = elim (Option-cases (find_udp p sessions)) [
    | inl e ↦ absurd (ground (arith, e))
    | inr (s, e) ↦
        let known = or_hung-NoMore p sessions (handle_udp_known os fuel beyond p s log) in
        rw e (ground arith)
  ]

module _ (os : Os) (inet_ntoa : List ℕ → List ℕ) (fuel : ℕ) (beyond : ℕ → ℕ) (args : Settings) where
  ip_udp-NoMore :
      (p : Option UdpPacket) (count : ℕ) (sessions : List NgSession) (log : List Call)
      → args.maxsessions ≤ count
      → args.fwd53 ≡ true
      → Leaves (NoMore sessions) (ip_udp os inet_ntoa fuel beyond args p count sessions log)
  unfolding has_udp_session
  ip_udp-NoMore none count sessions log full fwd = tt
  ip_udp-NoMore (some p) count sessions log full fwd =
      ground (arith, handle_udp-NoMore os fuel beyond p sessions log)

  ip_tcp-NoMore :
      (p : Option TcpPacket) (count : ℕ) (sessions : List NgSession) (log : List Call)
      → args.maxsessions ≤ count
      → Leaves (NoMore sessions) (ip_tcp os inet_ntoa fuel beyond args p count sessions log)
  ip_tcp-NoMore none count sessions log full = tt
  ip_tcp-NoMore (some p) count sessions log full =
      ground (arith, handle_tcp-NoMore os inet_ntoa p sessions log)

  ip_icmp-NoMore :
      (p : Option IcmpPacket) (count : ℕ) (sessions : List NgSession) (log : List Call)
      → args.maxsessions ≤ count
      → Leaves (NoMore sessions) (ip_icmp os inet_ntoa fuel beyond args p count sessions log)
  ip_icmp-NoMore none count sessions log full = tt
  ip_icmp-NoMore (some p) count sessions log full = ground arith

  dispatch_ip-NoMore :
      (buffer : List ℕ) (len protocol at count : ℕ) (sessions : List NgSession) (log : List Call)
      → args.maxsessions ≤ count
      → args.fwd53 ≡ true
      → Leaves
          (NoMore sessions)
          (dispatch_ip os inet_ntoa fuel beyond args buffer len protocol at count sessions log)
  unfolding dispatch_ip
  dispatch_ip-NoMore buffer len protocol at count sessions log full fwd =
      let icmp = ip_icmp-NoMore (icmp_view buffer len at) count sessions log full in
      let udp = ip_udp-NoMore (udp_view buffer len at) count sessions log full fwd in
      let tcp = ip_tcp-NoMore (tcp_view buffer len at) count sessions log full in ground arith

  after_target-NoMore :
      (buffer : List ℕ) (len : ℕ) (t : Target) (count : ℕ) (sessions : List NgSession)
      (log : List Call)
      → args.maxsessions ≤ count
      → args.fwd53 ≡ true
      → Leaves
          (NoMore sessions)
          (after_target os inet_ntoa fuel beyond args buffer len t count sessions log)
  after_target-NoMore buffer len (target protocol at) count sessions log full fwd =
      dispatch_ip-NoMore buffer len protocol at count sessions log full fwd
  after_target-NoMore buffer len dropped count sessions log full fwd = omega arith
  after_target-NoMore buffer len outside count sessions log full fwd = tt
  after_target-NoMore buffer len unfinished count sessions log full fwd = tt

  -- Once as many sessions were counted as may be, and where port 53 is forwarded (`fwd53`), no packet
  -- adds a session to the list.
  pub handle_ip_limit :
      (buffer : List ℕ) (len count : ℕ) (sessions : List NgSession) (log : List Call)
      → args.maxsessions ≤ count
      → args.fwd53 ≡ true
      → Leaves
          (λ after. length after ≤ length sessions)
          (handle_ip os inet_ntoa fuel beyond args buffer len count sessions log)
  unfolding handle_ip
  handle_ip_limit buffer len count sessions log full fwd =
      after_target-NoMore buffer len (ip_target args.verbose buffer len) count sessions log full fwd
