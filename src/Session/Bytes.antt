-- ===== src/Session/Bytes.antt =====
-- Equality of addresses, as the code tests it.
use tun2http.Prelude.{ℕ, ◌≡◌, refl, true, List, [], ◌∷◌, arith}
use tun2http.Session.{same_bytes}

pub same_bytes_eq : (x y : List ℕ) → same_bytes x y ≡ true → x ≡ y
same_bytes_eq [] [] h = refl
same_bytes_eq [] (b ∷ y) h = ground arith
same_bytes_eq (a ∷ x) [] h = ground arith
same_bytes_eq (a ∷ x) (b ∷ y) h = ground (arith, same_bytes_eq x y)

pub same_bytes_refl : (x : List ℕ) → same_bytes x x ≡ true
same_bytes_refl [] = refl
same_bytes_refl (a ∷ x) = ground (arith, same_bytes_refl x)
