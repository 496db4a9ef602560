-- ===== src/Util/Checksum.antt =====
-- `calc_checksum` is the ones' complement sum of RFC 1071: what it means, how calls chain, and why
-- a packet that carries the complement of its sum verifies.
use tun2http.Prelude.{
  ℕ, ◌+◌, ◌-◌, ◌*◌, ◌/◌, ◌%◌, ◌^◌, ◌≤◌, ◌<◌, ◌≡◌, ap, ◌∙◌, List, [], ◌∷◌, ◌++◌, length,
  length-append, u32, not16, store16, arith, ◌==◌, if◌then◌else◌,
}
use tun2http.Util.{sum_words, fold_carry, calc_checksum}

abbrev pub IsBytes : List ℕ → Type 0
IsBytes [] = Unit {0}
IsBytes (x ∷ xs) = (x < 256) × IsBytes xs

pub IsBytes-append : (xs ys : List ℕ) → IsBytes xs → IsBytes ys → IsBytes (xs ++ ys)
IsBytes-append [] ys hx hy = hy
IsBytes-append (x ∷ xs) ys hx hy = (hx.0, IsBytes-append xs ys hx.1 hy)

-- The exact sum of the 16-bit little-endian words, the last byte of an odd buffer padded by zero.
abbrev pub word_sum : List ℕ → ℕ
word_sum [] = 0
word_sum (a ∷ []) = a
word_sum (a ∷ b ∷ rest) = a + 256 * b + word_sum rest

-- The ones' complement value of a sum: its remainder by 65535, where only 0 itself gives 0.
abbrev pub ones_complement : ℕ → ℕ
ones_complement s = if s == 0 then 0 else (s - 1) % 65535 + 1

word_sum_bound : (xs : List ℕ) → IsBytes xs → 2 * word_sum xs ≤ 65535 * (length xs + 1)
word_sum_bound [] h = omega arith
word_sum_bound (a ∷ []) h = omega arith
word_sum_bound (a ∷ b ∷ rest) h = omega (arith, word_sum_bound rest h.1.1)

sum_words_exact :
    (s : ℕ) (xs : List ℕ) → s + word_sum xs < 2 ^ 32 → sum_words s xs ≡ s + word_sum xs
unfolding sum_words
sum_words_exact s [] h = omega arith
sum_words_exact s (a ∷ []) h = omega arith
sum_words_exact s (a ∷ b ∷ rest) h = ground (arith, sum_words_exact (u32 (s + (a + 256 * b))) rest)

fold_carry_lem : (s : ℕ) → s < 2 ^ 32 → fold_carry 3 s ≡ ones_complement s
unfolding fold_carry
fold_carry_lem s h = ground arith

-- The folding loop ends by its own test: no carry is left of any 32-bit sum.
fold_carry_ends : (s : ℕ) → s < 2 ^ 32 → fold_carry 3 s / 2 ^ 16 ≡ 0
unfolding fold_carry
fold_carry_ends s h = ground arith

calc_checksum_of_sum :
    (s : ℕ) (xs : List ℕ)
    → s + word_sum xs < 2 ^ 32
    → calc_checksum s xs ≡ ones_complement (s + word_sum xs)
unfolding calc_checksum
calc_checksum_of_sum s xs h =
    ground (arith, sum_words_exact s xs h, fold_carry_lem (s + word_sum xs) h)

-- For a buffer that fits a packet, `calc_checksum` is the ones' complement sum of its words: no
-- carry out of 32 bits is lost.
pub calc_checksum-ones_complement :
    (start : ℕ) (xs : List ℕ)
    → start < 2 ^ 16
    → IsBytes xs
    → length xs ≤ 65600
    → calc_checksum start xs ≡ ones_complement (start + word_sum xs)
calc_checksum-ones_complement start xs hs hb hl =
    calc_checksum_of_sum start xs (omega (arith, word_sum_bound xs hb))

pub word_sum-append :
    (xs ys : List ℕ) → length xs % 2 ≡ 0 → word_sum (xs ++ ys) ≡ word_sum xs + word_sum ys
word_sum-append [] ys h = omega arith
word_sum-append (a ∷ []) ys h = absurd (omega arith)
word_sum-append (a ∷ b ∷ rest) ys h = omega (arith, word_sum-append rest ys (omega arith))

pub calc_checksum-lt :
    (s : ℕ) (xs : List ℕ)
    → s < 2 ^ 16
    → IsBytes xs
    → length xs ≤ 65600
    → calc_checksum s xs < 2 ^ 16
calc_checksum-lt s xs hs hb hl = ground (arith, calc_checksum-ones_complement s xs hs hb hl)

ones_complement_carry :
    (a b : ℕ) → ones_complement (ones_complement a + b) ≡ ones_complement (a + b)
ones_complement_carry a b = ground arith

ones_complement_fill : (a : ℕ) → ones_complement (a + (65535 - ones_complement a)) ≡ 65535
ones_complement_fill a = ground arith

-- A checksum that is carried on from one buffer of even length to the next is the checksum of the
-- two together.
pub calc_checksum-append :
    (s : ℕ) (xs ys : List ℕ)
    → s < 2 ^ 16
    → length xs % 2 ≡ 0
    → IsBytes xs
    → IsBytes ys
    → length xs + length ys ≤ 65600
    → calc_checksum (calc_checksum s xs) ys ≡ calc_checksum s (xs ++ ys)
calc_checksum-append s xs ys hs he hx hy hl =
    rw
      (
        calc_checksum-ones_complement (calc_checksum s xs) ys
            (calc_checksum-lt s xs hs hx (omega arith)) hy (omega arith),
        calc_checksum-ones_complement s xs hs hx (omega arith),
        calc_checksum-ones_complement s (xs ++ ys) hs (IsBytes-append xs ys hx hy)
            (omega (arith, length-append xs ys)),
        word_sum-append xs ys he,
        ones_complement_carry (s + word_sum xs) (word_sum ys),
      )
      (ap ones_complement (omega arith))

-- The words of an aligned buffer with the field `v` between its two parts.
word_sum_field :
    (before after : List ℕ) (v : ℕ)
    → length before % 2 ≡ 0
    → v < 2 ^ 16
    → word_sum (before ++ (store16 v ++ after)) ≡ word_sum before + word_sum after + v
word_sum_field before after v he hv = omega (arith, word_sum-append before (store16 v ++ after) he)

module _ (s : ℕ) (before after : List ℕ) (hs : s < 2 ^ 16) (he : length before % 2 ≡ 0)
    (hb : IsBytes before) (ha : IsBytes after) (hl : length before + length after ≤ 65590) where
  field_checksum :
      (v : ℕ)
      → v < 2 ^ 16
      → calc_checksum s (before ++ (store16 v ++ after))
        ≡ ones_complement (s + (word_sum before + word_sum after + v))
  field_checksum v hv =
      let filled : List ℕ = store16 v ++ after in
      let hf : IsBytes filled = (omega arith, (omega arith, ha)) in
      rw (
        calc_checksum-ones_complement s (before ++ filled) hs (IsBytes-append before filled hb hf)
            (omega (arith, length-append before filled)),
        word_sum_field before after v he hv,
      )

  -- Writing the complement of the checksum, taken over zeros, into an aligned field makes the
  -- checksum of the whole buffer 0xFFFF, which is what a receiver checks.
  pub checksum_verifies :
      calc_checksum s
        (before ++ (store16 (not16 (calc_checksum s (before ++ (store16 0 ++ after)))) ++ after))
      ≡ 65535
  checksum_verifies =
      let sum : ℕ = s + (word_sum before + word_sum after + 0) in
      rw
        (field_checksum 0 (omega arith), field_checksum (not16 (ones_complement sum)) (omega arith))
        (ap ones_complement (omega arith) ∙ ones_complement_fill sum)
