-- ===== src/Http.antt =====
-- android_app/app/src/main/cpp/http.c: `patch_http_url`, which makes the request line of a request
-- for port 80 absolute. The code reads behind the data it is given, so what stands there in memory,
-- `beyond`, is a parameter.
pub mod Find
pub mod Rewrite
pub mod Forward
use tun2http.Prelude.{
  ℕ, zero, suc, ◌+◌, ◌-◌, Bool, true, false, not, ◌&&◌, Option, none, some, List, [], ◌∷◌, ◌++◌,
  ltb, leb, ◌==◌, if◌then◌else◌, length, take, drop,
}

-- Memory from a pointer on: the bytes of the data that are left, and those behind it.
pub record Memory : Type 0 where
  pub bytes : List ℕ
  pub beyond : ℕ → ℕ

abbrev peek : Memory → ℕ
peek m = elim (m.bytes) [ [] ↦ m.beyond 0 | x ∷ xs ↦ x ]

abbrev pub next : Memory → Memory
next m = elim (m.bytes) [
  | [] ↦ record m { beyond = λ k. m.beyond (suc k) }
  | x ∷ xs ↦ record m { bytes = xs }
]

abbrev pub skip : ℕ → Memory → Memory
skip zero m = m
skip (suc n) m = skip n (next m)

-- `tolower`
abbrev pub lower : ℕ → ℕ
lower c = if leb b'A' c && leb c b'Z' then c + 32 else c

-- `strncasecmp` of a text with what stands at a pointer, over the text's length.
unfoldable pub same_text : List ℕ → Memory → Bool
same_text [] m = true
same_text (c ∷ text) m =
    let later = same_text text (next m) in if lower c == lower (peek m) then later else false

-- `find_data` for the text `c ∷ text`: the data from the place on. The inner loop leaves out every
-- byte that is not `c` itself, down to the last two bytes, where it compares all the same.
unfoldable pub find_data : ℕ → List ℕ → (ℕ → ℕ) → List ℕ → Option (List ℕ)
find_data c text beyond (x ∷ y ∷ z ∷ rest) =
    let later = find_data c text beyond (y ∷ z ∷ rest) in
    let here = same_text (c ∷ text) (record { bytes = x ∷ y ∷ z ∷ rest; beyond = beyond }) in
    let last = same_text (c ∷ text) (record { bytes = y ∷ z ∷ []; beyond = beyond }) in
    if x == c
    then if here then some (x ∷ y ∷ z ∷ rest) else later
    else elim rest [ [] ↦ if last then some (y ∷ z ∷ []) else none | _ ↦ later ]
find_data c text beyond xs = none

-- The host, up to a carriage return and at most `n` bytes.
unfoldable pub take_host : ℕ → Memory → List ℕ
take_host zero m = []
take_host (suc n) m =
    let later = take_host n (next m) in if peek m == 13 then [] else peek m ∷ later

abbrev pub methods : List (List ℕ)
methods =
    (b'G' ∷ b'E' ∷ b'T' ∷ b' ' ∷ [])
    ∷ (b'P' ∷ b'O' ∷ b'S' ∷ b'T' ∷ b' ' ∷ [])
    ∷ (b'P' ∷ b'U' ∷ b'T' ∷ b' ' ∷ [])
    ∷ (b'D' ∷ b'E' ∷ b'L' ∷ b'E' ∷ b'T' ∷ b'E' ∷ b' ' ∷ [])
    ∷ (b'H' ∷ b'E' ∷ b'A' ∷ b'D' ∷ b' ' ∷ [])
    ∷ (b'O' ∷ b'P' ∷ b'T' ∷ b'I' ∷ b'O' ∷ b'N' ∷ b'S' ∷ b' ' ∷ [])
    ∷ (b'P' ∷ b'A' ∷ b'T' ∷ b'C' ∷ b'H' ∷ b' ' ∷ [])
    ∷ []

unfoldable pub find_text : List ℕ → (ℕ → ℕ) → List ℕ → Option (List ℕ)
find_text [] beyond xs = none
find_text (c ∷ text) beyond xs = find_data c text beyond xs

-- The first of the words that stands anywhere in the data: the distance to the byte behind it.
unfoldable pub find_word : List (List ℕ) → (ℕ → ℕ) → List ℕ → Option ℕ
find_word [] beyond xs = none
find_word (word ∷ words) beyond xs =
    let later = find_word words beyond xs in
    elim (find_text word beyond xs) [
      | some place ↦ some (length xs - length place + length word)
      | none ↦ later
    ]

abbrev pub host_header : List ℕ
host_header = b'H' ∷ b'o' ∷ b's' ∷ b't' ∷ b':' ∷ b' ' ∷ []

abbrev pub http_colon : List ℕ
http_colon = b'h' ∷ b't' ∷ b't' ∷ b'p' ∷ b':' ∷ []

abbrev pub http_prefix : List ℕ
http_prefix = b'h' ∷ b't' ∷ b't' ∷ b'p' ∷ b':' ∷ b'/' ∷ b'/' ∷ []

-- The tests of `data[pos1]` and of the four bytes behind it.
unfoldable pub is_text : List ℕ → Memory → Bool
is_text [] m = true
is_text (c ∷ text) m = let later = is_text text (next m) in if peek m == c then later else false

-- `kept` is the null pointer; `crashed` is a `memcpy` of a negative count.
pub data Patched : Type 0 where
  kept crashed : Patched
  patched : List ℕ → Patched

-- What is done at the place `pos1`, once the host is known.
unfoldable pub patch_at : List ℕ → (ℕ → ℕ) → List ℕ → ℕ → Patched
patch_at xs beyond hostname pos1 =
    if is_text http_colon (skip pos1 (record { bytes = xs; beyond = beyond }))
    then kept
    else if ltb (length xs) pos1
    then crashed
    else patched (take pos1 xs ++ (http_prefix ++ (hostname ++ drop pos1 xs)))

-- With the host known, and the place behind the method's word.
abbrev pub patch_word : List ℕ → (ℕ → ℕ) → List ℕ → Option ℕ → Patched
patch_word xs beyond hostname none = kept
patch_word xs beyond hostname (some pos1) = patch_at xs beyond hostname pos1

-- With the data from the header's place on.
abbrev pub patch_host : List ℕ → (ℕ → ℕ) → Option (List ℕ) → Patched
patch_host xs beyond none = kept
patch_host xs beyond (some place) =
    patch_word xs beyond (take_host 511 (skip 6 (record { bytes = place; beyond = beyond })))
      (find_word methods beyond xs)

unfoldable pub patch_http_url : (ℕ → ℕ) → List ℕ → Patched
patch_http_url beyond xs = patch_host xs beyond (find_text host_header beyond xs)

abbrev pub returned : Patched → Option (List ℕ)
returned (patched bytes) = some bytes
returned kept = none
returned crashed = none

-- What a call that returns gives its caller, for memory that may stand behind each piece of data. A
-- copy of a negative count, at which the program faults, is `none` here too.
unfoldable pub patch_with : (List ℕ → ℕ → ℕ) → List ℕ → Option (List ℕ)
patch_with beyond xs = returned (patch_http_url (beyond xs) xs)
