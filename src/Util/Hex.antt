-- ===== src/Util/Hex.antt =====
-- The hexadecimal helpers: what `hex` prints, `hex2bytes` reads.
use tun2http.Prelude.{
  ℕ, zero, suc, ◌*◌, ◌/◌, ◌%◌, ◌<◌, ◌≡◌, refl, ap, ◌∙◌, ◌⊎◌, Bool, Bool-cases, inl, inr, true,
  false, ◌&&◌, List, [], ◌∷◌, get_or, u8, bit_or, arith, ◌==◌, if◌then◌else◌,
}
use tun2http.Util.Checksum.{IsBytes}
use tun2http.Util.{char2nible, hex2bytes, hex, hex_str}

-- The text without its blanks.
abbrev without_spaces : List ℕ → List ℕ
without_spaces [] = []
without_spaces (c ∷ rest) = let kept = without_spaces rest in if c == b' ' then kept else c ∷ kept

-- A test that holds of all digits up to some number, run from the top.
passes : (ℕ → Bool) → ℕ → Bool
passes test zero = true
passes test (suc top) = let below = passes test top in if test top then below else false

passes-at :
    (test : ℕ → Bool) (top digit : ℕ) → digit < top → passes test top ≡ true → test digit ≡ true
unfolding passes
passes-at test zero digit lt run = ground arith
passes-at test (suc top) digit lt run = elim (Bool-cases (digit == top)) [
  | inl e ↦ ground arith
  | inr e ↦ ground (arith, passes-at test top digit)
]

abbrev high_digit : ℕ → ℕ
high_digit x = get_or hex_str (x / 16 % 16) 0

abbrev low_digit : ℕ → ℕ
low_digit x = get_or hex_str (x % 16) 0

abbrev reads_back : ℕ → Bool
reads_back x =
    (u8 (bit_or (char2nible (high_digit x) * 16) (char2nible (low_digit x))) == x)
    && ((if high_digit x == b' ' then false else true)
        && (if low_digit x == b' ' then false else true))

every_byte_reads_back : passes reads_back 256 ≡ true
unfolding passes char2nible
every_byte_reads_back = refl

byte_lem : (x : ℕ) → x < 256 → reads_back x ≡ true
byte_lem x h = passes-at reads_back 256 x h every_byte_reads_back

hex-cons :
    (hi lo x : ℕ) (rest : List ℕ)
    → (u8 (bit_or (char2nible hi * 16) (char2nible lo)) == x)
        && ((if hi == b' ' then false else true) && (if lo == b' ' then false else true))
      ≡ true
    → hex2bytes (without_spaces (hi ∷ lo ∷ b' ' ∷ rest)) ≡ x ∷ hex2bytes (without_spaces rest)
unfolding hex2bytes
hex-cons hi lo x rest h = ground arith

-- Reading the text that `hex` prints, its blanks left out, gives the bytes back.
hex2bytes-hex : (xs : List ℕ) → IsBytes xs → hex2bytes (without_spaces (hex xs)) ≡ xs
unfolding hex
hex2bytes-hex [] h = unfold hex2bytes in refl
hex2bytes-hex (x ∷ rest) h =
    hex-cons (high_digit x) (low_digit x) x (hex rest) (byte_lem x h.0)
    ∙ ap (◌∷◌ x) (hex2bytes-hex rest h.1)

-- A character is a digit of value below 16, or the answer is 255.
char2nible_range : (c : ℕ) → (char2nible c < 16) ⊎ (char2nible c ≡ 255)
unfolding char2nible
char2nible_range c = ground arith
