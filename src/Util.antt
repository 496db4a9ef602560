-- ===== src/Util.antt =====
-- android_app/app/src/main/cpp/util.c: the checksum, the comparison of sequence numbers and the
-- hexadecimal helpers. A buffer is the list of its bytes.
pub mod Compare
pub mod Checksum
pub mod Hex
use Prim.Native.Nat.{Ordering}
use tun2http.Prelude.{
  ℕ, zero, suc, ◌+◌, ◌-◌, ◌*◌, ◌/◌, ◌%◌, ◌^◌, Bool, ◌&&◌, ◌||◌, Option, none, some, List, [], ◌∷◌,
  ltb, leb, ◌==◌, if◌then◌else◌, u8, u16, u32, sub32, get_or, length, bit_or,
}

-- The loop over 16-bit words and the odd byte behind it; the sum is a `uint32_t`.
pub sum_words : ℕ → List ℕ → ℕ
sum_words sum [] = sum
sum_words sum (a ∷ []) = u32 (sum + a)
sum_words sum (a ∷ b ∷ rest) = sum_words (u32 (sum + (a + 256 * b))) rest

-- `while (sum >> 16) sum = (sum & 0xFFFF) + (sum >> 16)`, with fuel.
pub fold_carry : ℕ → ℕ → ℕ
fold_carry zero sum = sum
fold_carry (suc fuel) sum =
    let rest = fold_carry fuel (sum % 2 ^ 16 + sum / 2 ^ 16) in
    if sum / 2 ^ 16 == 0 then sum else rest

-- A `uint32_t` is folded after two rounds.
unfoldable pub calc_checksum : ℕ → List ℕ → ℕ
unfolding sum_words fold_carry
calc_checksum start buffer = u16 (fold_carry 3 (sum_words start buffer))

-- `a < b` on `int`, read from the bit patterns.
abbrev int_lt : ℕ → ℕ → Bool
int_lt a b = ltb ((a + 2 ^ 31) % 2 ^ 32) ((b + 2 ^ 31) % 2 ^ 32)

-- -1, 0 and 1 are `lt`, `eq` and `gt`. The differences are of type `int` and wrap.
unfoldable pub compare_u32 : ℕ → ℕ → Ordering
compare_u32 s1 s2 =
    if s1 == s2
    then Ordering.eq
    else if int_lt s1 s2 && int_lt (sub32 s2 s1) 0x7FFFFFFF
        || int_lt s2 s1 && int_lt 0x7FFFFFFF (sub32 s1 s2)
    then Ordering.lt
    else Ordering.gt

unfoldable pub char2nible : ℕ → ℕ
char2nible c =
    if leb b'0' c && leb c b'9'
    then u8 (c - b'0')
    else if leb b'a' c && leb c b'f'
    then u8 (c - b'a' + 10)
    else if leb b'A' c && leb c b'F'
    then u8 (c - b'A' + 10)
    else 255

-- Pairs of digits; the last one of an odd text pairs with the text's terminating zero.
unfoldable pub hex2bytes : List ℕ → List ℕ
unfolding char2nible
hex2bytes [] = []
hex2bytes (a ∷ []) = u8 (bit_or (char2nible a * 16) (char2nible 0)) ∷ []
hex2bytes (a ∷ b ∷ rest) = u8 (bit_or (char2nible a * 16) (char2nible b)) ∷ hex2bytes rest

abbrev pub hex_str : List ℕ
hex_str =
    b'0' ∷ b'1' ∷ b'2' ∷ b'3' ∷ b'4' ∷ b'5' ∷ b'6' ∷ b'7' ∷ b'8' ∷ b'9' ∷ b'A' ∷ b'B' ∷ b'C' ∷ b'D'
    ∷ b'E' ∷ b'F' ∷ []

-- The text of `hex`, without its terminating zero.
unfoldable pub hex : List ℕ → List ℕ
hex [] = []
hex (x ∷ rest) = get_or hex_str (x / 16 % 16) 0 ∷ get_or hex_str (x % 16) 0 ∷ b' ' ∷ hex rest

-- The bytes up to the first zero, as the C library reads a string.
abbrev pub c_string : List ℕ → List ℕ
c_string [] = []
c_string (c ∷ rest) = let text = c ∷ c_string rest in if c == 0 then [] else text
