-- ===== src/Util/Compare.antt =====
-- `compare_u32` beside the serial number arithmetic that its comment cites.
use Prim.Native.Nat.{Ordering, compare}
use tun2http.Prelude.{ℕ, ◌+◌, ◌%◌, ◌^◌, ◌≤◌, ◌<◌, ◌≡◌, ltb, ◌==◌, if◌then◌else◌, sub32, arith}
use tun2http.Util.{compare_u32}

-- RFC 1982 for 32 bits: `s1` is before `s2` when the way up from `s1` to `s2` is under half the circle.
abbrev pub serial_compare : ℕ → ℕ → Ordering
serial_compare s1 s2 =
    if s1 == s2
    then Ordering.eq
    else if ltb (sub32 s2 s1) (2 ^ 31)
    then Ordering.lt
    else Ordering.gt

-- A bit pattern's place in the order of `int`.
abbrev pub int_rank : ℕ → ℕ
int_rank s = (s + 2 ^ 31) % 2 ^ 32

-- Where the two numbers, read as `int`, are less than 0x7FFFFFFF apart, `compare_u32` is the
-- comparison of RFC 1982.
pub compare_u32-serial_compare :
    (s1 s2 : ℕ)
    → s1 < 2 ^ 32
    → s2 < 2 ^ 32
    → int_rank s1 < int_rank s2 + 0x7FFFFFFF
    → int_rank s2 < int_rank s1 + 0x7FFFFFFF
    → compare_u32 s1 s2 ≡ serial_compare s1 s2
unfolding compare_u32
compare_u32-serial_compare s1 s2 h1 h2 near near' = ground arith

-- Across the middle of the number space the order is the wrong way round: a number below 2 ^ 31
-- is after one at or above 2 ^ 31 that follows it within half the circle.
pub compare_u32_across_middle :
    (s1 s2 : ℕ)
    → s1 < 2 ^ 31
    → 2 ^ 31 ≤ s2
    → s2 < s1 + 2 ^ 31
    → (compare_u32 s1 s2 ≡ Ordering.gt) × (serial_compare s1 s2 ≡ Ordering.lt)
unfolding compare_u32
compare_u32_across_middle s1 s2 h1 h2 h3 = ground arith

compare_u32_refl : (s : ℕ) → compare_u32 s s ≡ Ordering.eq
unfolding compare_u32
compare_u32_refl s = ground arith

pub compare_u32_eq : (s1 s2 : ℕ) → compare_u32 s1 s2 ≡ Ordering.eq → s1 ≡ s2
unfolding compare_u32
compare_u32_eq s1 s2 h = ground arith

-- The order is never both ways.
pub compare_u32_flip :
    (s1 s2 : ℕ)
    → s1 < 2 ^ 32
    → s2 < 2 ^ 32
    → compare_u32 s1 s2 ≡ Ordering.lt
    → compare_u32 s2 s1 ≡ Ordering.gt
unfolding compare_u32
compare_u32_flip s1 s2 h1 h2 h = ground arith

-- Where the two are near, `compare_u32` compares their places in the order of `int`.
pub compare_u32_rank :
    (s1 s2 : ℕ)
    → s1 < 2 ^ 32
    → s2 < 2 ^ 32
    → int_rank s1 < int_rank s2 + 0x7FFFFFFF
    → int_rank s2 < int_rank s1 + 0x7FFFFFFF
    → compare_u32 s1 s2 ≡ compare (int_rank s1) (int_rank s2)
unfolding compare_u32
compare_u32_rank s1 s2 h1 h2 near near' = ground arith
