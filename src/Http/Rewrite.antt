-- ===== src/Http/Rewrite.antt =====
-- What `patch_http_url` makes of a request.
use tun2http.Prelude.{
  ℕ, zero, suc, ◌+◌, ◌-◌, ◌≤◌, ◌<◌, ◌≡◌, refl, ◌∙◌, true, false, Option, none, some, List, [], ◌∷◌,
  ◌++◌, length, length-append, length-take, length-drop, take, drop, take-append, drop-append, min,
  arith, ◌≢◌,
}
use mathlib.Core.List.{append_assoc}
use tun2http.Http.{
  Memory, next, skip, find_text, find_word, take_host, methods, host_header, http_colon,
  http_prefix, is_text, kept, patched, patch_at, patch_word, patch_host, patch_http_url,
}
use tun2http.Http.Find.{is_free, find_data-append}

-- No byte is a carriage return.
abbrev pub NoReturn : List ℕ → Type 0
NoReturn [] = Unit {0}
NoReturn (c ∷ rest) = (c ≢ 13) × NoReturn rest

take_host-append :
    (n : ℕ) (host rest : List ℕ) (beyond : ℕ → ℕ)
    → NoReturn host
    → length host < n
    → take_host n (record { bytes = host ++ (13 ∷ rest); beyond = beyond }) ≡ host
unfolding take_host
take_host-append zero host rest beyond h l = absurd (omega arith)
take_host-append (suc n) [] rest beyond h l = refl
take_host-append (suc n) (c ∷ host) rest beyond h l =
    ground (arith, take_host-append n host rest beyond h.1, h.0)

length-take_host : (n : ℕ) (m : Memory) → length (take_host n m) ≤ n
unfolding take_host
length-take_host zero m = omega arith
length-take_host (suc n) m = ground (arith, length-take_host n (next m))

skip-append :
    (before rest : List ℕ) (beyond : ℕ → ℕ)
    → skip (length before) (record { bytes = before ++ rest; beyond = beyond })
      ≡ record { bytes = rest; beyond = beyond }
skip-append [] rest beyond = refl
skip-append (x ∷ before) rest beyond = skip-append before rest beyond

abbrev pub get_word : List ℕ
get_word = b'G' ∷ b'E' ∷ b'T' ∷ b' ' ∷ []

find_word-get :
    (before target : List ℕ) (beyond : ℕ → ℕ)
    → is_free b'G' (b'E' ∷ b'T' ∷ b' ' ∷ []) before (get_word ++ target) ≡ true
    → find_word methods beyond (before ++ (get_word ++ target)) ≡ some (length before + 4)
unfolding find_word find_text
find_word-get before target beyond h = ground (
  arith,
  find_data-append b'G' b'E' b'T' (b' ' ∷ []) before target beyond h,
  length-append before (get_word ++ target),
)

patch_at-append :
    (front target hostname : List ℕ) (beyond : ℕ → ℕ)
    → is_text http_colon (record { bytes = target; beyond = beyond }) ≡ false
    → patch_at (front ++ target) beyond hostname (length front)
      ≡ patched (front ++ (http_prefix ++ (hostname ++ target)))
unfolding patch_at
patch_at-append front target hostname beyond h =
    rw (skip-append front target beyond, h, take-append front target, drop-append front target)
      (ground (arith, length-append front target))

patch_at-kept :
    (front target hostname : List ℕ) (beyond : ℕ → ℕ)
    → is_text http_colon (record { bytes = target; beyond = beyond }) ≡ true
    → patch_at (front ++ target) beyond hostname (length front) ≡ kept
unfolding patch_at
patch_at-kept front target hostname beyond h = rw (skip-append front target beyond, h) refl

module _ (data_bytes before target front host rest : List ℕ) (beyond : ℕ → ℕ)
    (request : data_bytes ≡ before ++ (get_word ++ target))
    (header : data_bytes ≡ front ++ (host_header ++ (host ++ (13 ∷ rest))))
    (first_word : is_free b'G' (b'E' ∷ b'T' ∷ b' ' ∷ []) before (get_word ++ target) ≡ true)
    (first_header : is_free b'H'
        (b'o' ∷ b's' ∷ b't' ∷ b':' ∷ b' ' ∷ [])
        front
        (host_header ++ (host ++ (13 ∷ rest)))
      ≡ true)
    (host_text : NoReturn host) (host_fits : length host < 511) where
  found_header :
      find_text host_header beyond data_bytes ≡ some (host_header ++ (host ++ (13 ∷ rest)))
  unfolding find_text
  found_header = rw header (
      find_data-append b'H' b'o' b's' (b't' ∷ b':' ∷ b' ' ∷ []) front (host ++ (13 ∷ rest)) beyond
        first_header)

  found_word : find_word methods beyond data_bytes ≡ some (length before + 4)
  found_word = rw request (find_word-get before target beyond first_word)

  patch_http_url-patch_at :
      patch_http_url beyond data_bytes ≡ patch_at data_bytes beyond host (length before + 4)
  unfolding patch_http_url
  patch_http_url-patch_at =
      ground
        (arith, found_header, found_word, take_host-append 511 host rest beyond host_text host_fits)

  -- The request as its first line's word, and what follows it.
  request_line :
      patch_at data_bytes beyond host (length before + 4)
      ≡ patch_at ((before ++ get_word) ++ target) beyond host (length (before ++ get_word))
  request_line =
      rw (request, append_assoc before get_word target, length-append before get_word) refl

  -- Data with the word `GET ` and a `Host: ` header, each at its first place in the data, whose
  -- host has no carriage return and fewer than 511 bytes, and whose target does not start with
  -- `http:`, gets `http://` and the host between the word and the target, and keeps every other byte.
  pub patch_http_url-patched :
      is_text http_colon (record { bytes = target; beyond = beyond }) ≡ false
      → patch_http_url beyond data_bytes
        ≡ patched ((before ++ get_word) ++ (http_prefix ++ (host ++ target)))
  patch_http_url-patched relative =
      patch_http_url-patch_at
      ∙ request_line
      ∙ patch_at-append (before ++ get_word) target host beyond relative

  -- Such a request whose target starts with `http:` is left as it is.
  patch_http_url-kept :
      is_text http_colon (record { bytes = target; beyond = beyond }) ≡ true
      → patch_http_url beyond data_bytes ≡ kept
  patch_http_url-kept absolute =
      patch_http_url-patch_at
      ∙ request_line
      ∙ patch_at-kept (before ++ get_word) target host beyond absolute

length-patch_at :
    (data_bytes new_data hostname : List ℕ) (beyond : ℕ → ℕ) (pos1 : ℕ)
    → patch_at data_bytes beyond hostname pos1 ≡ patched new_data
    → length new_data ≡ length data_bytes + 7 + length hostname
unfolding patch_at
length-patch_at data_bytes new_data hostname beyond pos1 =
    let n : length (take pos1 data_bytes ++ (http_prefix ++ (hostname ++ drop pos1 data_bytes)))
        ≡ min pos1 (length data_bytes) + (7 + (length hostname + (length data_bytes - pos1))) =
      omega (
        arith,
        length-append (take pos1 data_bytes) (http_prefix ++ (hostname ++ drop pos1 data_bytes)),
        length-append hostname (drop pos1 data_bytes),
        length-take pos1 data_bytes,
        length-drop pos1 data_bytes,
      ) in
    ground (arith, n)

length-patch_word :
    (data_bytes new_data hostname : List ℕ) (beyond : ℕ → ℕ) (found : Option ℕ)
    → length hostname ≤ 511
    → patch_word data_bytes beyond hostname found ≡ patched new_data
    → (length data_bytes + 7 ≤ length new_data) × (length new_data ≤ length data_bytes + 518)
length-patch_word data_bytes new_data hostname beyond none le made = ground arith
length-patch_word data_bytes new_data hostname beyond (some pos1) le made =
    let n : length new_data ≡ length data_bytes + 7 + length hostname =
      length-patch_at data_bytes new_data hostname beyond pos1 made in
    (omega arith, omega arith)

length-patch_host :
    (data_bytes new_data : List ℕ) (beyond : ℕ → ℕ) (found : Option (List ℕ))
    → patch_host data_bytes beyond found ≡ patched new_data
    → (length data_bytes + 7 ≤ length new_data) × (length new_data ≤ length data_bytes + 518)
length-patch_host data_bytes new_data beyond none made = ground arith
length-patch_host data_bytes new_data beyond (some place) made =
    let host : Memory = skip 6 (record { bytes = place; beyond = beyond }) in
    length-patch_word data_bytes new_data (take_host 511 host) beyond
      (find_word methods beyond data_bytes) (length-take_host 511 host) made

-- Whatever the data and the memory behind it, a patched request is longer than the data by at least
-- 7 and at most 518 bytes.
pub length-patch_http_url :
    (beyond : ℕ → ℕ) (data_bytes new_data : List ℕ)
    → patch_http_url beyond data_bytes ≡ patched new_data
    → (length data_bytes + 7 ≤ length new_data) × (length new_data ≤ length data_bytes + 518)
unfolding patch_http_url
length-patch_http_url beyond data_bytes new_data made =
    length-patch_host data_bytes new_data beyond (find_text host_header beyond data_bytes) made
