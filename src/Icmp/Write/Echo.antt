-- ===== src/Icmp/Write/Echo.antt =====
-- The echo messages that go out with another identifier.
use tun2http.Prelude.{
  ℕ, ◌/◌, ◌%◌, ◌^◌, ◌≤◌, ◌<◌, ◌≡◌, refl, List, [], ◌∷◌, length, drop, get_or, arith,
}
use tun2http.Util.{calc_checksum}
use tun2http.Util.Checksum.{IsBytes, checksum_verifies}
use tun2http.Icmp.Write.{icmp_type, icmp_id, readdress}

-- A message of at least six bytes.
abbrev pub message : ℕ → ℕ → ℕ → ℕ → ℕ → ℕ → List ℕ → List ℕ
message kind code k1 k2 i1 i2 rest = kind ∷ code ∷ k1 ∷ k2 ∷ i1 ∷ i2 ∷ rest

-- What holds of a message that was given another identifier.
pub record IsReaddressed (csum id : ℕ) (before after : List ℕ) : Type 0 where
  pub verifies : calc_checksum csum after ≡ 65535
  pub new_id : icmp_id after ≡ id
  pub same_type : icmp_type after ≡ icmp_type before
  pub same_code : get_or after 1 0 ≡ get_or before 1 0
  pub same_rest : drop 6 after ≡ drop 6 before
  pub same_length : length after ≡ length before

-- An echo message of at least six and at most 65507 bytes that was given a 16-bit identifier has that
-- identifier, adds up with the sum `csum` of its pseudo header to 0xFFFF, as a receiver expects, and
-- is otherwise the message that it was.
pub readdress-IsReaddressed :
    (csum id kind code k1 k2 i1 i2 : ℕ) (rest : List ℕ)
    → csum < 2 ^ 16
    → id < 2 ^ 16
    → IsBytes (message kind code k1 k2 i1 i2 rest)
    → length rest ≤ 65501
    → IsReaddressed csum id
        (message kind code k1 k2 i1 i2 rest)
        (readdress csum (message kind code k1 k2 i1 i2 rest) id)
unfolding readdress
readdress-IsReaddressed csum id kind code k1 k2 i1 i2 rest hs hi hb hl = record {
  verifies =
      checksum_verifies csum (kind ∷ code ∷ []) ((id % 256) ∷ (id / 256 % 256) ∷ rest) hs refl
        (hb.0, (hb.1.0, tt)) (omega arith, (omega arith, hb.1.1.1.1.1.1)) (omega arith);
  new_id = omega arith;
  same_type = refl;
  same_code = refl;
  same_rest = refl;
  same_length = refl;
}
