-- ===== src/Ip/Check.antt =====
-- The tests of an IPv4 header in `handle_ip` of ip.c.
use tun2http.Prelude.{
  ℕ, zero, suc, ◌/◌, ◌%◌, ◌≤◌, ◌<◌, ◌≡◌, true, false, List, [], ◌∷◌, ◌==◌, get_or, length,
  length-take, take, arith,
}
use tun2http.Util.{calc_checksum}
use tun2http.Util.Checksum.{IsBytes, calc_checksum-ones_complement}
use tun2http.Ip.{is_fragment, bad_checksum, ip4_target, ip_target}

IsBytes-take : (n : ℕ) (xs : List ℕ) → IsBytes xs → IsBytes (take n xs)
IsBytes-take zero xs h = tt
IsBytes-take (suc n) [] h = tt
IsBytes-take (suc n) (x ∷ xs) h = (h.0, IsBytes-take n xs h.1)

get_or-IsBytes : (xs : List ℕ) (i : ℕ) → IsBytes xs → get_or xs i 0 < 256
get_or-IsBytes [] i h = omega arith
get_or-IsBytes (x ∷ xs) zero h = h.0
get_or-IsBytes (x ∷ xs) (suc i) h = get_or-IsBytes xs i h.1

-- The test for fragments reads bit 5 of the low byte of the fragment's offset, and not the flag for
-- more fragments, which is bit 5 of the byte before.
is_fragment_lem :
    (buffer : List ℕ) → IsBytes buffer → is_fragment buffer ≡ (get_or buffer 7 0 / 32 % 2 == 1)
is_fragment_lem buffer h =
    let a = get_or-IsBytes buffer 6 h in let b = get_or-IsBytes buffer 7 h in ground arith

-- A header that starts with a byte that is not 0 adds up to more than 0.
good_checksum :
    (b : ℕ) (rest : List ℕ)
    → 0 < b
    → IsBytes (b ∷ rest)
    → length (b ∷ rest) ≤ 20
    → (calc_checksum 0 (b ∷ rest) == 0) ≡ false
good_checksum b [] pos h n =
    ground (arith, calc_checksum-ones_complement 0 (b ∷ []) (omega arith) h (omega arith))
good_checksum b (c ∷ rest) pos h n =
    ground (arith, calc_checksum-ones_complement 0 (b ∷ c ∷ rest) (omega arith) h (omega arith))

bad_checksum_lem :
    (buffer : List ℕ) → 0 < get_or buffer 0 0 → IsBytes buffer → bad_checksum buffer ≡ false
bad_checksum_lem [] pos h = ground arith
bad_checksum_lem (b ∷ rest) pos h =
    good_checksum b (take 19 rest) pos (IsBytes-take 20 (b ∷ rest) h)
      (omega (arith, length-take 20 (b ∷ rest)))

-- The test of the checksum of an IPv4 header finds no fault with any: a packet, and a damaged one
-- too, is treated in the same way at every log level.
pub ip_target_unchecked :
    (buffer : List ℕ) (len : ℕ)
    → IsBytes buffer
    → ip_target true buffer len ≡ ip_target false buffer len
unfolding ip_target ip4_target
ip_target_unchecked buffer len h = ground (arith, bad_checksum_lem buffer)
