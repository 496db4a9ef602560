-- ===== src/Tls.antt =====
-- android_app/app/src/main/cpp/tls.c: the server name of a TLS ClientHello. A list stands for a
-- pointer into the record and the bytes from there to the record's end, so that a pattern is the
-- code's test of the length and the reads behind it. `char` is unsigned, as on ARM.
pub mod Bounds
pub mod Hello
use tun2http.Prelude.{
  ℕ, zero, suc, ◌+◌, ◌*◌, Bool, true, false, ◌&&◌, ◌||◌, not, List, [], ◌∷◌, ltb, leb, ◌==◌,
  if◌then◌else◌, length, take, drop, min,
}
use tun2http.Util.{c_string}

-- `unfinished` is a loop that has not ended within the fuel.
pub data Sni : Type 0 where
  absent unfinished : Sni
  found : List ℕ → Sni

abbrev fqdn_max : ℕ
fqdn_max = 255

-- The loop over the names, from behind the length of their list. The name is copied by `strncpy`.
unfoldable pub server_names : ℕ → List ℕ → Sni
server_names zero names = unfinished
server_names (suc fuel) (kind ∷ hi ∷ lo ∷ first ∷ rest) =
    let len = hi * 256 + lo in
    let name = first ∷ rest in
    let later = server_names fuel (drop len name) in
    if ltb (length name) len
    then absent
    else if kind == 0
    then found (c_string (take (min len fqdn_max) name))
    else later
server_names (suc fuel) names = absent

unfoldable pub parse_server_name_extension : List ℕ → Sni
parse_server_name_extension bytes = server_names (suc (length bytes)) (drop 2 bytes)

-- The loop over the extensions: the first server name extension decides.
unfoldable pub extensions : ℕ → List ℕ → Sni
extensions zero bytes = unfinished
extensions (suc fuel) (t1 ∷ t0 ∷ hi ∷ lo ∷ rest) =
    let len = hi * 256 + lo in
    let later = extensions fuel (drop len rest) in
    if t1 == 0 && t0 == 0
    then if ltb (length rest) len then absent else parse_server_name_extension (take len rest)
    else later
extensions (suc fuel) bytes = absent

unfoldable pub parse_extensions : List ℕ → Sni
parse_extensions bytes = extensions (suc (length bytes)) bytes

-- The parts of the ClientHello, each from the byte that gives its length.
unfoldable pub hello_extensions : List ℕ → Sni
hello_extensions (hi ∷ lo ∷ rest) =
    if ltb (length rest) (hi * 256 + lo)
    then absent
    else parse_extensions (take (hi * 256 + lo) rest)
hello_extensions bytes = absent

unfoldable pub hello_compression : List ℕ → Sni
hello_compression (len ∷ rest) = hello_extensions (drop len rest)
hello_compression [] = absent

unfoldable pub hello_ciphers : List ℕ → Sni
hello_ciphers (hi ∷ lo ∷ rest) = hello_compression (drop (hi * 256 + lo) rest)
hello_ciphers bytes = absent

unfoldable pub hello_session : List ℕ → Sni
hello_session (len ∷ rest) = hello_ciphers (drop len rest)
hello_session [] = absent

-- The handshake message: its type, its length, a version and the random bytes are 38 bytes.
unfoldable pub handshake : List ℕ → Sni
handshake (kind ∷ rest) = if kind == 1 then hello_session (drop 37 rest) else absent
handshake [] = absent

-- The record of `data_len` bytes; what follows it is not read. A record of SSL 3.0 that ends behind
-- the compression methods has no extensions either way.
unfoldable pub parse_tls_header : List ℕ → Sni
parse_tls_header (kind ∷ major ∷ minor ∷ hi ∷ lo ∷ body) =
    let len = hi * 256 + lo in
    if not (ltb kind 128) && minor == 1 || not (kind == 22) || ltb major 3
    then absent
    else if ltb (length body) len
    then absent
    else handshake (take len body)
parse_tls_header bytes = absent

-- The hostname that the caller has, which is empty before the call.
unfoldable pub server_name : List ℕ → List ℕ
server_name bytes = elim (parse_tls_header bytes) [ found name ↦ name | _ ↦ [] ]
