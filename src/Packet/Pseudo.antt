-- ===== src/Packet/Pseudo.antt =====
-- The pseudo header: its bytes and its size.
use tun2http.Prelude.{
  ℕ, ◌/◌, ◌%◌, ◌^◌, ◌≤◌, ◌<◌, ◌≡◌, refl, List, [], ◌∷◌, ◌++◌, length, length-append, ◌==◌,
  if◌then◌else◌, arith, be16, Bool-cases, inl, inr,
}
use tun2http.Util.Checksum.{
  IsBytes, IsBytes-append, word_sum, word_sum-append, calc_checksum-ones_complement,
}
use tun2http.Util.{calc_checksum}
use tun2http.Packet.{pseudo4, pseudo6, pseudo_header}
use tun2http.Packet.Check.{IsAddress}

module _ (version protocol len : ℕ) (saddr daddr : List ℕ) where
  pub pseudo_header-IsBytes :
      protocol < 256
      → IsAddress version saddr
      → IsAddress version daddr
      → IsBytes (pseudo_header version protocol len saddr daddr)
  unfolding pseudo_header
  pseudo_header-IsBytes hp hs hd =
      let v4 : IsBytes (pseudo4 protocol len daddr saddr) =
        unfold pseudo4 in
        IsBytes-append daddr _ hd.are_bytes (IsBytes-append saddr _ hs.are_bytes (omega arith)) in
      let v6 : IsBytes (pseudo6 (be16 len) protocol saddr daddr) =
        unfold pseudo6 in
        IsBytes-append saddr _ hs.are_bytes (IsBytes-append daddr _ hd.are_bytes (omega arith)) in
      elim (Bool-cases (version == 4)) [ inl e ↦ rw e v4 | inr e ↦ rw e v6 ]

  pub length-pseudo_header :
      IsAddress version saddr
      → IsAddress version daddr
      → length (pseudo_header version protocol len saddr daddr) ≡ (if version == 4 then 12 else 40)
  unfolding pseudo_header
  length-pseudo_header hs hd = elim (Bool-cases (version == 4)) [
    | inl e ↦
        let d : length daddr ≡ 4 = rw e at hd.size in
        let c : length saddr ≡ 4 = rw e at hs.size in
        rw e (
          unfold pseudo4 in
          omega (
            arith,
            length-append daddr (saddr ++ (0 ∷ protocol ∷ be16 len)),
            length-append saddr (0 ∷ protocol ∷ be16 len),
          ))
    | inr e ↦
        let d : length daddr ≡ 16 = rw e at hd.size in
        let c : length saddr ≡ 16 = rw e at hs.size in
        let rest : List ℕ = be16 len ++ (0 ∷ 0 ∷ 0 ∷ 0 ∷ 0 ∷ protocol ∷ []) in
        rw e (
          unfold pseudo6 in
          omega (arith, length-append saddr (daddr ++ rest), length-append daddr rest))
  ]

-- The pseudo header that a receiver puts in front, by RFC 793 and RFC 768 for IPv4 and RFC 2460 for
-- IPv6: source, destination, then zero, protocol and a 16-bit length, or a 32-bit length, three zeros
-- and the protocol.
abbrev pub receiver_pseudo : ℕ → ℕ → ℕ → List ℕ → List ℕ → List ℕ
receiver_pseudo version protocol len source target =
    if version == 4
    then source ++ (target ++ (0 ∷ protocol ∷ len / 256 ∷ len % 256 ∷ []))
    else source ++ (target ++ (0 ∷ 0 ∷ len / 256 ∷ len % 256 ∷ 0 ∷ 0 ∷ 0 ∷ protocol ∷ []))

module _ (protocol len : ℕ) (hp : protocol < 256) (hl : len < 2 ^ 16) (saddr daddr : List ℕ) where
  word_sum-pseudo6 :
      length saddr ≡ 16
      → length daddr ≡ 16
      → word_sum (pseudo6 (be16 len) protocol saddr daddr)
        ≡ word_sum (daddr ++ (saddr ++ (0 ∷ 0 ∷ len / 256 ∷ len % 256 ∷ 0 ∷ 0 ∷ 0 ∷ protocol ∷ [])))
  unfolding pseudo6
  word_sum-pseudo6 hs hd =
      let ours : List ℕ = be16 len ++ (0 ∷ 0 ∷ 0 ∷ 0 ∷ 0 ∷ protocol ∷ []) in
      let theirs : List ℕ = 0 ∷ 0 ∷ len / 256 ∷ len % 256 ∷ 0 ∷ 0 ∷ 0 ∷ protocol ∷ [] in
      omega (
        arith,
        word_sum-append saddr (daddr ++ ours) (omega (arith, hs)),
        word_sum-append daddr ours (omega (arith, hd)),
        word_sum-append daddr (saddr ++ theirs) (omega (arith, hd)),
        word_sum-append saddr theirs (omega (arith, hs)),
      )

  receiver_pseudo-IsBytes :
      (version : ℕ)
      → IsAddress version saddr
      → IsAddress version daddr
      → IsBytes (receiver_pseudo version protocol len daddr saddr)
  receiver_pseudo-IsBytes version hs hd = elim (Bool-cases (version == 4)) [
    | inl e ↦
        rw e
          (IsBytes-append daddr _ hd.are_bytes (IsBytes-append saddr _ hs.are_bytes (omega arith)))
    | inr e ↦
        rw e
          (IsBytes-append daddr _ hd.are_bytes (IsBytes-append saddr _ hs.are_bytes (omega arith)))
  ]

  length-receiver_pseudo :
      (version : ℕ)
      → IsAddress version saddr
      → IsAddress version daddr
      → length (receiver_pseudo version protocol len daddr saddr) ≤ 40
  length-receiver_pseudo version hs hd =
      let rest4 : List ℕ = 0 ∷ protocol ∷ len / 256 ∷ len % 256 ∷ [] in
      let rest6 : List ℕ = 0 ∷ 0 ∷ len / 256 ∷ len % 256 ∷ 0 ∷ 0 ∷ 0 ∷ protocol ∷ [] in
      ground (
        arith,
        hs.size,
        hd.size,
        length-append daddr (saddr ++ rest4),
        length-append saddr rest4,
        length-append daddr (saddr ++ rest6),
        length-append saddr rest6,
      )

  word_sum-pseudo_header :
      (version : ℕ)
      → IsAddress version saddr
      → IsAddress version daddr
      → word_sum (pseudo_header version protocol len saddr daddr)
        ≡ word_sum (receiver_pseudo version protocol len daddr saddr)
  unfolding pseudo_header
  word_sum-pseudo_header version hs hd = elim (Bool-cases (version == 4)) [
    | inl e ↦
        let high : len / 256 % 256 ≡ len / 256 = omega arith in
        rw e (unfold pseudo4 in rw high refl)
    | inr e ↦
        let d : length daddr ≡ 16 = rw e at hd.size in
        let c : length saddr ≡ 16 = rw e at hs.size in rw e (word_sum-pseudo6 c d)
  ]

  -- The code's pseudo header sums to what the receiver's does.
  pub calc_checksum-pseudo_header :
      (version : ℕ)
      → IsAddress version saddr
      → IsAddress version daddr
      → calc_checksum 0 (pseudo_header version protocol len saddr daddr)
        ≡ calc_checksum 0 (receiver_pseudo version protocol len daddr saddr)
  calc_checksum-pseudo_header version hs hd =
      rw
        (
          calc_checksum-ones_complement 0 (pseudo_header version protocol len saddr daddr)
              (omega arith) (pseudo_header-IsBytes version protocol len saddr daddr hp hs hd)
              (ground (arith, length-pseudo_header version protocol len saddr daddr hs hd)),
          calc_checksum-ones_complement 0 (receiver_pseudo version protocol len daddr saddr)
              (omega arith) (receiver_pseudo-IsBytes version hs hd)
              (omega (arith, length-receiver_pseudo version hs hd)),
          word_sum-pseudo_header version hs hd,
        )
        refl
