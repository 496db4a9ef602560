-- ===== src/Tls/Bounds.antt =====
-- The parser of tls.c ends, and what it finds fits the caller's buffer.
use tun2http.Prelude.{
  ℕ, zero, suc, ◌+◌, ◌*◌, ◌≤◌, ◌<◌, List, [], ◌∷◌, length, take, drop, min, arith, length-take,
  length-drop,
}
use tun2http.Util.{c_string}
use tun2http.Tls.{
  Sni, absent, unfinished, found, server_names, parse_server_name_extension, extensions,
  parse_extensions, hello_extensions, hello_compression, hello_ciphers, hello_session, handshake,
  parse_tls_header, server_name,
}

-- The bytes before the first zero are all of a C string.
abbrev pub IsText : List ℕ → Type 0
IsText [] = Unit {0}
IsText (c ∷ rest) = (0 < c) × IsText rest

-- An answer that the loops reached, and a name of at most 255 bytes without a zero.
abbrev pub IsAnswer : Sni → Type 0
IsAnswer absent = Unit {0}
IsAnswer unfinished = ⊥
IsAnswer (found name) = (length name ≤ 255) × IsText name

length-c_string : (text : List ℕ) → length (c_string text) ≤ length text
length-c_string [] = omega arith
length-c_string (c ∷ rest) = ground (arith, length-c_string rest)

c_string-IsText : (text : List ℕ) → IsText (c_string text)
c_string-IsText [] = tt
c_string-IsText (c ∷ rest) = ground (arith, c_string-IsText rest)

found-IsAnswer : (len : ℕ) (name : List ℕ) → IsAnswer (found (c_string (take (min len 255) name)))
found-IsAnswer len name = (
  omega (arith, length-c_string (take (min len 255) name), length-take (min len 255) name),
  c_string-IsText (take (min len 255) name),
)

server_names-IsAnswer :
    (fuel : ℕ) (names : List ℕ) → length names < fuel → IsAnswer (server_names fuel names)
unfolding server_names
server_names-IsAnswer zero names h = absurd (omega arith)
server_names-IsAnswer (suc fuel) [] h = tt
server_names-IsAnswer (suc fuel) (a ∷ []) h = tt
server_names-IsAnswer (suc fuel) (a ∷ b ∷ []) h = tt
server_names-IsAnswer (suc fuel) (a ∷ b ∷ c ∷ []) h = tt
server_names-IsAnswer (suc fuel) (kind ∷ hi ∷ lo ∷ first ∷ rest) h =
    let len : ℕ = hi * 256 + lo in
    ground (
      arith,
      found-IsAnswer len (first ∷ rest),
      length-drop len (first ∷ rest),
      server_names-IsAnswer fuel (drop len (first ∷ rest)),
    )

parse_server_name_extension-IsAnswer :
    (bytes : List ℕ) → IsAnswer (parse_server_name_extension bytes)
unfolding parse_server_name_extension
parse_server_name_extension-IsAnswer bytes =
    server_names-IsAnswer _ (drop 2 bytes) (omega (arith, length-drop 2 bytes))

extensions-IsAnswer :
    (fuel : ℕ) (bytes : List ℕ) → length bytes < fuel → IsAnswer (extensions fuel bytes)
unfolding extensions
extensions-IsAnswer zero bytes h = absurd (omega arith)
extensions-IsAnswer (suc fuel) [] h = tt
extensions-IsAnswer (suc fuel) (a ∷ []) h = tt
extensions-IsAnswer (suc fuel) (a ∷ b ∷ []) h = tt
extensions-IsAnswer (suc fuel) (a ∷ b ∷ c ∷ []) h = tt
extensions-IsAnswer (suc fuel) (t1 ∷ t0 ∷ hi ∷ lo ∷ rest) h =
    let len : ℕ = hi * 256 + lo in
    ground (
      arith,
      parse_server_name_extension-IsAnswer (take len rest),
      length-drop len rest,
      extensions-IsAnswer fuel (drop len rest),
    )

hello_extensions-IsAnswer : (bytes : List ℕ) → IsAnswer (hello_extensions bytes)
unfolding hello_extensions parse_extensions
hello_extensions-IsAnswer [] = tt
hello_extensions-IsAnswer (a ∷ []) = tt
hello_extensions-IsAnswer (hi ∷ lo ∷ rest) =
    let bytes : List ℕ = take (hi * 256 + lo) rest in
    ground (arith, extensions-IsAnswer (suc (length bytes)) bytes (omega arith))

hello_session-IsAnswer : (bytes : List ℕ) → IsAnswer (hello_session bytes)
unfolding hello_session
hello_session-IsAnswer [] = tt
hello_session-IsAnswer (len ∷ rest) = ciphers (drop len rest)
  where
    compression : (bytes : List ℕ) → IsAnswer (hello_compression bytes)
    compression [] = unfold hello_compression in tt
    compression (n ∷ more) = unfold hello_compression in hello_extensions-IsAnswer (drop n more)

    ciphers : (bytes : List ℕ) → IsAnswer (hello_ciphers bytes)
    ciphers [] = unfold hello_ciphers in tt
    ciphers (a ∷ []) = unfold hello_ciphers in tt
    ciphers (hi ∷ lo ∷ more) = unfold hello_ciphers in compression (drop (hi * 256 + lo) more)

handshake-IsAnswer : (bytes : List ℕ) → IsAnswer (handshake bytes)
unfolding handshake
handshake-IsAnswer [] = tt
handshake-IsAnswer (kind ∷ rest) = ground (arith, hello_session-IsAnswer (drop 37 rest))

-- On any bytes at all the parser ends, and a name that it finds has at most 255 bytes and no zero
-- byte among them.
pub parse_tls_header-IsAnswer : (bytes : List ℕ) → IsAnswer (parse_tls_header bytes)
unfolding parse_tls_header
parse_tls_header-IsAnswer [] = tt
parse_tls_header-IsAnswer (a ∷ []) = tt
parse_tls_header-IsAnswer (a ∷ b ∷ []) = tt
parse_tls_header-IsAnswer (a ∷ b ∷ c ∷ []) = tt
parse_tls_header-IsAnswer (a ∷ b ∷ c ∷ d ∷ []) = tt
parse_tls_header-IsAnswer (kind ∷ major ∷ minor ∷ hi ∷ lo ∷ body) =
    ground (arith, handshake-IsAnswer (take (hi * 256 + lo) body))

length-server_name : (bytes : List ℕ) → length (server_name bytes) ≤ 255
unfolding server_name
length-server_name bytes = ground (arith, parse_tls_header-IsAnswer bytes)
