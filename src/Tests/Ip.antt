-- ===== src/Tests/Ip.antt =====
-- The theorems on packets of the tun device, and on UDP and ICMP sessions.
use tun2http.Prelude.{
  ℕ, ◌≤◌, ◌≡◌, ◌⊎◌, refl, true, false, List, [], ◌∷◌, ◌++◌, arith, length, replicate,
}
use tun2http.Session.{NgSession}
use tun2http.Session.Leaves.{Leaves}
use tun2http.Icmp.Write.{readdress}
use tun2http.Icmp.Write.Echo.{IsReaddressed, readdress-IsReaddressed}
use tun2http.Ip.{target, outside, ip_target, ip6_target}
use tun2http.Ip.Handle.{Settings, handle_ip}
use tun2http.Ip.Extension.{ip6_target-cases}
use tun2http.Ip.Check.{ip_target_unchecked}
use tun2http.Ip.Limit.{handle_ip_limit}
use tun2http.Tests.Data.{
  os_example, name_example, udp_node_example, icmp_node_example, node_example,
}

abbrev zeros : ℕ → ℕ
zeros k = 0

abbrev settings_example : Settings
settings_example = record { fwd53 = true; verbose = true; maxsessions = 3 }

-- UDP from 10.0.0.2 to 8.8.8.8, port 80, with two bytes of data, in a longer buffer.
abbrev packet_bytes : List ℕ
packet_bytes =
    0x45
    ∷ 0
    ∷ 0
    ∷ 30
    ∷ 0
    ∷ 0
    ∷ 0
    ∷ 0
    ∷ 64
    ∷ 17
    ∷ 0
    ∷ 0
    ∷ 10
    ∷ 0
    ∷ 0
    ∷ 2
    ∷ 8
    ∷ 8
    ∷ 8
    ∷ 8
    ∷ 18
    ∷ 52
    ∷ 0
    ∷ 80
    ∷ 0
    ∷ 10
    ∷ 0
    ∷ 0
    ∷ 1
    ∷ 2
    ∷ replicate 20 0

abbrev list_example : List NgSession
list_example =
    NgSession.udp_session udp_node_example
    ∷ NgSession.icmp_session icmp_node_example
    ∷ NgSession.tcp_session node_example
    ∷ []

handle_ip_limit_example :
    Leaves
      (λ after. length after ≤ 3)
      (handle_ip os_example name_example 9 zeros settings_example packet_bytes 30 3 list_example [])
handle_ip_limit_example =
    handle_ip_limit os_example name_example 9 zeros settings_example packet_bytes 30 3 list_example
      [] (omega arith) refl

readdress-IsReaddressed_example :
    IsReaddressed 0 77
      (8 ∷ 0 ∷ 1 ∷ 2 ∷ 99 ∷ 0 ∷ 0 ∷ 1 ∷ 5 ∷ [])
      (readdress 0 (8 ∷ 0 ∷ 1 ∷ 2 ∷ 99 ∷ 0 ∷ 0 ∷ 1 ∷ 5 ∷ []) 77)
readdress-IsReaddressed_example =
    readdress-IsReaddressed 0 77 8 0 1 2 99 0 (0 ∷ 1 ∷ 5 ∷ []) (omega arith) (omega arith)
      (ground arith) (omega arith)

-- IPv6 with a hop-by-hop header and a routing header.
abbrev extension_bytes : List ℕ
extension_bytes =
    0x60
    ∷ 0
    ∷ 0
    ∷ 0
    ∷ 0
    ∷ 16
    ∷ 0
    ∷ (replicate 33 64 ++ (43 ∷ 0 ∷ (replicate 6 0 ++ (17 ∷ 0 ∷ replicate 30 0))))

ip6_target-cases_example :
    (ip6_target extension_bytes 56 ≡ target 0 40) ⊎ (ip6_target extension_bytes 56 ≡ outside)
ip6_target-cases_example =
    ip6_target-cases extension_bytes 56 (ground arith) (omega arith) (omega arith) refl

ip_target_unchecked_example : ip_target true packet_bytes 30 ≡ ip_target false packet_bytes 30
ip_target_unchecked_example = ip_target_unchecked packet_bytes 30 (ground arith)
