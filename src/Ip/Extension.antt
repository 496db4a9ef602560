-- ===== src/Ip/Extension.antt =====
-- The loop over IPv6 extension headers in `handle_ip` of ip.c.
use tun2http.Prelude.{
  ℕ, zero, suc, ◌+◌, ◌-◌, ◌^◌, ◌≤◌, ◌<◌, ◌≡◌, ◌≢◌, refl, true, false, not, ◌&&◌, ◌⊎◌, inl, inr,
  some, List, [], ◌∷◌, u16, get_elem?, get_or, length, arith, Bool-cases, Option-cases,
}
use tun2http.Util.Checksum.{IsBytes}
use tun2http.Ip.{
  Target, target, dropped, outside, unfinished, is_lower_layer, is_upper_layer, skip_extensions,
  after_extensions, ip6_target,
}

lower-is_upper : (protocol : ℕ) → is_lower_layer protocol ≡ true → is_upper_layer protocol ≡ false
lower-is_upper protocol h = ground arith

-- Where the loop leaves: not at a protocol of the upper layers.
abbrev pub Below : Target → Type 0
Below (target protocol off) = is_upper_layer protocol ≡ false
Below dropped = ⊥
Below outside = Unit {0}
Below unfinished = Unit {0}

-- One more extension header: its protocol is of a lower layer.
record Skipped (fuel : ℕ) (buffer : List ℕ) (protocol off : ℕ) : Type 0 where
  pub ip6e_nxt : ℕ
  pub ip6e_len : ℕ
  next_there : get_elem? buffer off ≡ some ip6e_nxt
  len_there : get_elem? buffer (off + 1) ≡ some ip6e_len
  pub lower : is_lower_layer ip6e_nxt ≡ true
  pub step :
      skip_extensions (suc fuel) buffer protocol off
      ≡ skip_extensions fuel buffer ip6e_nxt (u16 (off + (8 + ip6e_len)))

-- What a round of the loop does.
skip_extensions_round :
    (fuel : ℕ) (buffer : List ℕ) (protocol off : ℕ)
    → (skip_extensions (suc fuel) buffer protocol off ≡ outside)
      ⊎ ((skip_extensions (suc fuel) buffer protocol off ≡ target protocol off)
          ⊎ Skipped fuel buffer protocol off)
unfolding skip_extensions
skip_extensions_round fuel buffer protocol off = elim (Option-cases (get_elem? buffer off)) [
  | inl e ↦ inl (ground (arith, e))
  | inr (nxt, e) ↦ elim (Bool-cases (is_lower_layer nxt && not (is_upper_layer protocol))) [
    | inr stop ↦ inr (inl (ground (arith, e, stop)))
    | inl go ↦ elim (Option-cases (get_elem? buffer (off + 1))) [
      | inl e' ↦ inl (ground (arith, e, go, e'))
      | inr (len, e') ↦ inr (
          inr (record {
            ip6e_nxt = nxt;
            ip6e_len = len;
            next_there = e;
            len_there = e';
            lower = ground (arith, go);
            step = ground (arith, e, go, e');
          }))
    ]
  ]
]

skip_extensions-Below :
    (fuel : ℕ) (buffer : List ℕ) (protocol off : ℕ)
    → is_upper_layer protocol ≡ false
    → Below (skip_extensions fuel buffer protocol off)
skip_extensions-Below zero buffer protocol off h = unfold skip_extensions in tt
skip_extensions-Below (suc fuel) buffer protocol off h =
    elim (skip_extensions_round fuel buffer protocol off) [
      | inl e ↦ rw e tt
      | inr (inl e) ↦ rw e h
      | inr (inr s) ↦ rw s.step (
          skip_extensions-Below fuel buffer s.ip6e_nxt (u16 (off + (8 + s.ip6e_len)))
            (lower-is_upper s.ip6e_nxt s.lower))
    ]

get_elem?-some :
    (xs : List ℕ) (i x : ℕ) → IsBytes xs → get_elem? xs i ≡ some x → (i < length xs) × (x < 256)
get_elem?-some [] i x h e = ground arith
get_elem?-some (y ∷ xs) zero x h e = let l = h.0 in ground arith
get_elem?-some (y ∷ xs) (suc i) x h e =
    let later = get_elem?-some xs i x h.1 e in (omega arith, later.1)

skip_extensions-ends :
    (fuel : ℕ) (buffer : List ℕ) (protocol off : ℕ)
    → IsBytes buffer
    → length buffer - off < fuel
    → length buffer ≤ 2 ^ 16 - 300
    → skip_extensions fuel buffer protocol off ≢ unfinished
skip_extensions-ends zero buffer protocol off b h n = absurd (omega arith)
skip_extensions-ends (suc fuel) buffer protocol off b h n =
    elim (skip_extensions_round fuel buffer protocol off) [
      | inl e ↦ rw e (ground arith)
      | inr (inl e) ↦ rw e (ground arith)
      | inr (inr s) ↦
          let here = get_elem?-some buffer off s.ip6e_nxt b s.next_there in
          let there = get_elem?-some buffer (off + 1) s.ip6e_len b s.len_there in
          rw s.step (
            skip_extensions-ends fuel buffer s.ip6e_nxt (u16 (off + (8 + s.ip6e_len))) b
              (omega arith) n)
    ]

after_extensions_lem :
    (ip6_nxt : ℕ) (t : Target)
    → Below t
    → t ≢ unfinished
    → (after_extensions ip6_nxt t ≡ target ip6_nxt 40) ⊎ (after_extensions ip6_nxt t ≡ outside)
after_extensions_lem ip6_nxt (target protocol off) below ends = ground arith
after_extensions_lem ip6_nxt dropped below ends = elim below [ ]
after_extensions_lem ip6_nxt outside below ends = ground arith
after_extensions_lem ip6_nxt unfinished below ends = absurd (ends refl)

-- The loop over IPv6 extension headers ends within its fuel, since an extension takes at least 8 of
-- the buffer's bytes, and finds nothing: whatever follows the header, a packet whose next header is
-- not of an upper layer has that next header for its protocol and the header's end for its payload,
-- or the loop has read outside the buffer.
pub ip6_target-cases :
    (buffer : List ℕ) (len : ℕ)
    → IsBytes buffer
    → length buffer ≤ 2 ^ 16 - 300
    → 40 ≤ len
    → is_upper_layer (get_or buffer 6 0) ≡ false
    → (ip6_target buffer len ≡ target (get_or buffer 6 0) 40) ⊎ (ip6_target buffer len ≡ outside)
unfolding ip6_target
ip6_target-cases buffer len b n long below =
    let nxt : ℕ = get_or buffer 6 0 in
    let fuel : ℕ = suc (length buffer) in
    let result =
      after_extensions_lem nxt (skip_extensions fuel buffer nxt 40)
        (skip_extensions-Below fuel buffer nxt 40 below)
        (skip_extensions-ends fuel buffer nxt 40 b (omega arith) n) in
    rw below (ground (arith, result))
