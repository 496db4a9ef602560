-- ===== src/Ip/Shape.antt =====
-- What a packet of the tun device leaves of the list of sessions.
use tun2http.Prelude.{
  ℕ, ◌≤◌, ◌≡◌, sym, ap, ◌∙◌, subst, not, ◌&&◌, Option, none, some, List, leb, Bool-cases, inl, inr,
  arith,
}
use tun2http.Os.{Os, Call}
use tun2http.Session.{NgSession, Handled, handled, hung}
use tun2http.Session.Leaves.{Leaves, Comes}
use tun2http.Tcp.Header.{TcpPacket, tcp_view}
use tun2http.Tcp.Handle.{handle_tcp}
use tun2http.Tcp.Handle.Unique.{Unique, serving, handle_tcp-Unique}
use tun2http.Udp.Handle.{UdpPacket, has_udp_session, handle_udp}
use tun2http.Udp.Handle.Unique.{udp_serving, AllUdp, UdpKept, handle_udp-UdpKept}
use tun2http.Icmp.Handle.{IcmpPacket, handle_icmp}
use tun2http.Icmp.Handle.Kept.{icmp_serving, AllIcmp, IcmpKept, handle_icmp-IcmpKept}
use tun2http.Ip.{Target, target, dropped, outside, unfinished, ip_target, udp_view, icmp_view}
use tun2http.Ip.Handle.{Settings, ip_icmp, ip_udp, ip_tcp, dispatch_ip, after_target, handle_ip}
use tun2http.Ip.Others.{handle_tcp-others}
use tun2http.Ip.Parts.{
  not_tcp, serving-others, serving-not_icmp, udp_serving-not_tcp, udp_serving-not_icmp,
  icmp_serving-not_tcp, icmp_serving-others, AllUdp-not_tcp, AllUdp-not_icmp, AllIcmp-not_tcp,
  AllIcmp-others,
}

-- A list of sessions in shape: no packet finds two, and of UDP and ICMP those have sockets that should.
pub record InShape (sessions : List NgSession) : Type 0 where
  pub tcp_unique : Unique sessions
  pub udp_unique : (q : UdpPacket) → udp_serving q sessions ≤ 1
  pub icmp_unique : (q : IcmpPacket) → icmp_serving q sessions ≤ 1
  pub udp_sound : AllUdp sessions
  pub icmp_sockets : AllIcmp sessions

Leaves-both :
    {P Q R : List NgSession → Type 0} (h : Handled)
    → ((after : List NgSession) → P after → Q after → R after)
    → Leaves P h
    → Leaves Q h
    → Leaves R h
Leaves-both (handled after log) f p q = f after p q
Leaves-both hung f p q = tt

Comes-Leaves :
    {P Q : List NgSession → Type 0} (h : Handled)
    → ((after : List NgSession) → P after → Q after)
    → Comes P h
    → Leaves Q h
Comes-Leaves (handled after log) f p = f after p
Comes-Leaves hung f p = elim p [ ]

tcp-InShape :
    (before after : List NgSession)
    → InShape before
    → Unique after
    → not_tcp after ≡ not_tcp before
    → InShape after
tcp-InShape before after h u e = record {
  tcp_unique = u;
  udp_unique = λ q.
      let l = h.udp_unique q in
      let same : udp_serving q after ≡ udp_serving q before =
        sym (udp_serving-not_tcp q after) ∙ ap (udp_serving q) e ∙ udp_serving-not_tcp q before in
      rw same l;
  icmp_unique = λ q.
      let l = h.icmp_unique q in
      let same : icmp_serving q after ≡ icmp_serving q before =
        sym (icmp_serving-not_tcp q after)
        ∙ ap (icmp_serving q) e
        ∙ icmp_serving-not_tcp q before in
      rw same l;
  udp_sound =
      subst (λ t. t) (sym (AllUdp-not_tcp before) ∙ ap AllUdp (sym e) ∙ AllUdp-not_tcp after)
        h.udp_sound;
  icmp_sockets =
      subst (λ t. t) (sym (AllIcmp-not_tcp before) ∙ ap AllIcmp (sym e) ∙ AllIcmp-not_tcp after)
        h.icmp_sockets;
}

udp-InShape :
    (before after : List NgSession) → InShape before → UdpKept before after → InShape after
udp-InShape before after h k = record {
  tcp_unique = λ q.
      let l = h.tcp_unique q in
      let same : serving q after ≡ serving q before =
        sym (serving-others q after) ∙ ap (serving q) k.same_others ∙ serving-others q before in
      rw same l;
  udp_unique = k.unique h.udp_unique;
  icmp_unique = λ q.
      let l = h.icmp_unique q in
      let same : icmp_serving q after ≡ icmp_serving q before =
        sym (icmp_serving-others q after)
        ∙ ap (icmp_serving q) k.same_others
        ∙ icmp_serving-others q before in
      rw same l;
  udp_sound = k.sound h.udp_sound;
  icmp_sockets =
      subst (λ t. t)
        (sym (AllIcmp-others before) ∙ ap AllIcmp (sym k.same_others) ∙ AllIcmp-others after)
        h.icmp_sockets;
}

icmp-InShape :
    (before after : List NgSession) → InShape before → IcmpKept before after → InShape after
icmp-InShape before after h k = record {
  tcp_unique = λ q.
      let l = h.tcp_unique q in
      let same : serving q after ≡ serving q before =
        sym (serving-not_icmp q after) ∙ ap (serving q) k.same_others ∙ serving-not_icmp q before in
      rw same l;
  udp_unique = λ q.
      let l = h.udp_unique q in
      let same : udp_serving q after ≡ udp_serving q before =
        sym (udp_serving-not_icmp q after)
        ∙ ap (udp_serving q) k.same_others
        ∙ udp_serving-not_icmp q before in
      rw same l;
  icmp_unique = k.unique h.icmp_unique;
  udp_sound =
      subst (λ t. t)
        (sym (AllUdp-not_icmp before) ∙ ap AllUdp (sym k.same_others) ∙ AllUdp-not_icmp after)
        h.udp_sound;
  icmp_sockets = k.sockets h.icmp_sockets;
}

module _ (os : Os) (inet_ntoa : List ℕ → List ℕ) (fuel : ℕ) (beyond : ℕ → ℕ) (args : Settings) where
  ip_icmp-InShape :
      (p : Option IcmpPacket) (count : ℕ) (sessions : List NgSession) (log : List Call)
      → InShape sessions
      → Leaves InShape (ip_icmp os inet_ntoa fuel beyond args p count sessions log)
  ip_icmp-InShape none count sessions log h = tt
  ip_icmp-InShape (some p) count sessions log h = elim (Bool-cases (leb args.maxsessions count)) [
    | inl full ↦ rw full h
    | inr room ↦ rw room (
        Comes-Leaves (handle_icmp os p sessions log) (λ after k. icmp-InShape sessions after h k)
          (handle_icmp-IcmpKept os p sessions log))
  ]

  ip_udp-InShape :
      (p : Option UdpPacket) (count : ℕ) (sessions : List NgSession) (log : List Call)
      → InShape sessions
      → Leaves InShape (ip_udp os inet_ntoa fuel beyond args p count sessions log)
  ip_udp-InShape none count sessions log h = tt
  ip_udp-InShape (some p) count sessions log h =
      let handled_shape =
        Leaves-both (handle_udp os fuel beyond p sessions log)
          (λ after k k'. udp-InShape sessions after h k)
          (handle_udp-UdpKept os fuel beyond p sessions log)
          (handle_udp-UdpKept os fuel beyond p sessions log) in
      elim (Bool-cases
        (leb args.maxsessions count && not (has_udp_session args.fwd53 p sessions))) [
          | inl full ↦ rw full h
          | inr room ↦ rw room handled_shape
        ]

  ip_tcp-InShape :
      (p : Option TcpPacket) (count : ℕ) (sessions : List NgSession) (log : List Call)
      → InShape sessions
      → Leaves InShape (ip_tcp os inet_ntoa fuel beyond args p count sessions log)
  ip_tcp-InShape none count sessions log h = tt
  ip_tcp-InShape (some p) count sessions log h =
      let handled_shape : Leaves InShape (handle_tcp os inet_ntoa p sessions log) =
        Leaves-both (handle_tcp os inet_ntoa p sessions log)
          (λ after u e. tcp-InShape sessions after h u e)
          (handle_tcp-Unique os inet_ntoa p sessions log h.tcp_unique)
          (handle_tcp-others os inet_ntoa p sessions log) in
      ground arith

  dispatch_ip-InShape :
      (buffer : List ℕ) (len protocol at count : ℕ) (sessions : List NgSession) (log : List Call)
      → InShape sessions
      → Leaves InShape
          (dispatch_ip os inet_ntoa fuel beyond args buffer len protocol at count sessions log)
  unfolding dispatch_ip
  dispatch_ip-InShape buffer len protocol at count sessions log h =
      let icmp = ip_icmp-InShape (icmp_view buffer len at) count sessions log h in
      let udp = ip_udp-InShape (udp_view buffer len at) count sessions log h in
      let tcp = ip_tcp-InShape (tcp_view buffer len at) count sessions log h in ground arith

  after_target-InShape :
      (buffer : List ℕ) (len : ℕ) (t : Target) (count : ℕ) (sessions : List NgSession)
      (log : List Call)
      → InShape sessions
      → Leaves InShape (after_target os inet_ntoa fuel beyond args buffer len t count sessions log)
  after_target-InShape buffer len (target protocol at) count sessions log h =
      dispatch_ip-InShape buffer len protocol at count sessions log h
  after_target-InShape buffer len dropped count sessions log h = h
  after_target-InShape buffer len outside count sessions log h = tt
  after_target-InShape buffer len unfinished count sessions log h = tt

  -- Whatever bytes the tun device gives, as long as the handler comes back, the list of sessions
  -- stays in shape: no packet of any protocol finds two sessions, no UDP session that is closed or
  -- blocked has a socket, and every ICMP session has one.
  pub handle_ip-InShape :
      (buffer : List ℕ) (len count : ℕ) (sessions : List NgSession) (log : List Call)
      → InShape sessions
      → Leaves InShape (handle_ip os inet_ntoa fuel beyond args buffer len count sessions log)
  unfolding handle_ip
  handle_ip-InShape buffer len count sessions log h =
      after_target-InShape buffer len (ip_target args.verbose buffer len) count sessions log h
