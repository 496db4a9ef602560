-- ===== src/Http/Find.antt =====
-- The search of http.c.
use tun2http.Prelude.{
  ℕ, ◌+◌, ◌≤◌, ◌≡◌, refl, Bool, true, false, ◌&&◌, some, List, [], ◌∷◌, ◌++◌, ◌∙◌, ◌==◌,
  if◌then◌else◌, length, length-append, arith, ==_refl,
}
use tun2http.Http.{lower, same_text, find_data}

-- Whether a text stands at the start of a list, but for the case of its letters.
abbrev starts : List ℕ → List ℕ → Bool
starts [] xs = true
starts (c ∷ text) [] = false
starts (c ∷ text) (x ∷ xs) =
    let later = starts text xs in if lower c == lower x then later else false

-- The text `c ∷ text` is not met with at any place of `before`, with `rest` behind it.
abbrev pub is_free : ℕ → List ℕ → List ℕ → List ℕ → Bool
is_free c text [] rest = true
is_free c text (x ∷ before) rest =
    let later = is_free c text before rest in
    if x == c && starts (c ∷ text) (x ∷ (before ++ rest)) then false else later

same_text-starts :
    (text xs : List ℕ) (beyond : ℕ → ℕ)
    → length text ≤ length xs
    → same_text text (record { bytes = xs; beyond = beyond }) ≡ starts text xs
unfolding same_text
same_text-starts [] xs beyond h = refl
same_text-starts (c ∷ text) [] beyond h = absurd (omega arith)
same_text-starts (c ∷ text) (x ∷ xs) beyond h = ground (arith, same_text-starts text xs beyond)

starts-append : (text rest : List ℕ) → starts text (text ++ rest) ≡ true
starts-append [] rest = refl
starts-append (c ∷ text) rest = ground (arith, ==_refl (lower c), starts-append text rest)

find_data_step :
    (c : ℕ) (text : List ℕ) (beyond : ℕ → ℕ) (x : ℕ) (ys : List ℕ)
    → 3 ≤ length ys
    → length text ≤ length ys
    → x == c && starts (c ∷ text) (x ∷ ys) ≡ false
    → find_data c text beyond (x ∷ ys) ≡ find_data c text beyond ys
find_data_step c text beyond x [] n l h = absurd (omega arith)
find_data_step c text beyond x (y ∷ []) n l h = absurd (omega arith)
find_data_step c text beyond x (y ∷ z ∷ []) n l h = absurd (omega arith)
find_data_step c text beyond x (y ∷ z ∷ w ∷ rest) n l h =
    unfold find_data in ground (arith, same_text-starts (c ∷ text) (x ∷ y ∷ z ∷ w ∷ rest) beyond)

find_data_here :
    (c t1 t2 : ℕ) (text rest : List ℕ) (beyond : ℕ → ℕ)
    → find_data c (t1 ∷ t2 ∷ text) beyond (c ∷ t1 ∷ t2 ∷ (text ++ rest))
      ≡ some (c ∷ t1 ∷ t2 ∷ (text ++ rest))
find_data_here c t1 t2 text rest beyond =
    let s : starts (c ∷ t1 ∷ t2 ∷ text) (c ∷ t1 ∷ t2 ∷ (text ++ rest)) ≡ true =
      starts-append (c ∷ t1 ∷ t2 ∷ text) rest in
    unfold find_data in
    ground (
      arith,
      same_text-starts (c ∷ t1 ∷ t2 ∷ text) (c ∷ t1 ∷ t2 ∷ (text ++ rest)) beyond,
      length-append text rest,
    )

-- A text of three bytes or more is found where it first stands, whatever is behind the data.
pub find_data-append :
    (c t1 t2 : ℕ) (text before rest : List ℕ) (beyond : ℕ → ℕ)
    → is_free c (t1 ∷ t2 ∷ text) before (c ∷ t1 ∷ t2 ∷ (text ++ rest)) ≡ true
    → find_data c (t1 ∷ t2 ∷ text) beyond (before ++ (c ∷ t1 ∷ t2 ∷ (text ++ rest)))
      ≡ some (c ∷ t1 ∷ t2 ∷ (text ++ rest))
find_data-append c t1 t2 text [] rest beyond h = find_data_here c t1 t2 text rest beyond
find_data-append c t1 t2 text (x ∷ before) rest beyond h =
    let found : List ℕ = c ∷ t1 ∷ t2 ∷ (text ++ rest) in
    let n : length (before ++ found) ≡ length before + (3 + (length text + length rest)) =
      omega (arith, length-append before found, length-append text rest) in
    let here : (x == c && starts (c ∷ t1 ∷ t2 ∷ text) (x ∷ (before ++ found)) ≡ false)
        × (is_free c (t1 ∷ t2 ∷ text) before found ≡ true) =
      ground arith in
    find_data_step c (t1 ∷ t2 ∷ text) beyond x (before ++ found) (omega arith) (omega arith) here.0
    ∙ find_data-append c t1 t2 text before rest beyond here.1
