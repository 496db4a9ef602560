-- ===== src/Tests/Util.antt =====
-- The theorems of util.c and of the IP headers.
use Prim.Native.Nat.{Ordering}
use tun2http.Prelude.{◌+◌, ◌≡◌, [], ◌∷◌, arith}
use tun2http.Util.{compare_u32, calc_checksum}
use tun2http.Util.Compare.{serial_compare, compare_u32-serial_compare, compare_u32_across_middle}
use tun2http.Util.Checksum.{word_sum, ones_complement, calc_checksum-ones_complement}

-- 4294967295 is before 2, as both stand on one side of the middle.
compare_u32-serial_compare_example : compare_u32 4294967295 2 ≡ serial_compare 4294967295 2
compare_u32-serial_compare_example =
    compare_u32-serial_compare 4294967295 2 (omega arith) (omega arith) (omega arith) (omega arith)

compare_u32_across_middle_example :
    (compare_u32 2147483647 2147483648 ≡ Ordering.gt)
    × (serial_compare 2147483647 2147483648 ≡ Ordering.lt)
compare_u32_across_middle_example =
    compare_u32_across_middle 2147483647 2147483648 (omega arith) (omega arith) (omega arith)

calc_checksum-ones_complement_example :
    calc_checksum 65000 (255 ∷ 254 ∷ 253 ∷ [])
    ≡ ones_complement (65000 + word_sum (255 ∷ 254 ∷ 253 ∷ []))
calc_checksum-ones_complement_example =
    calc_checksum-ones_complement 65000 (255 ∷ 254 ∷ 253 ∷ []) (omega arith) (omega arith)
      (omega arith)
