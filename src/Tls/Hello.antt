-- ===== src/Tls/Hello.antt =====
-- The ClientHello of RFC 5246 and RFC 6066, and what tls.c finds in it.
use tun2http.Prelude.{
  ℕ, zero, suc, ◌+◌, ◌*◌, ◌/◌, ◌%◌, ◌≤◌, ◌<◌, ◌^◌, ◌≡◌, refl, ◌∙◌, false, List, [], ◌∷◌, ◌++◌, ◌==◌,
  length, length-append, drop, min, arith, ◌&&◌, drop-append, take-append,
}
use tun2http.Util.{c_string}
use tun2http.Tls.Bounds.{IsText}
use tun2http.Tls.{
  found, server_names, parse_server_name_extension, extensions, parse_extensions, hello_extensions,
  hello_compression, hello_ciphers, hello_session, handshake, parse_tls_header,
}

-- Bytes with their length in front, in one byte or in two.
abbrev sized8 : List ℕ → List ℕ → List ℕ
sized8 bytes rest = length bytes ∷ (bytes ++ rest)

abbrev sized16 : List ℕ → List ℕ → List ℕ
sized16 bytes rest = (length bytes / 256 % 256) ∷ (length bytes % 256) ∷ (bytes ++ rest)

-- An extension of any other type.
pub record Extension : Type 0 where
  pub type_hi : ℕ
  pub type_lo : ℕ
  pub body : List ℕ

abbrev encode_extensions : List Extension → List ℕ → List ℕ
encode_extensions [] rest = rest
encode_extensions (e ∷ es) rest = e.type_hi ∷ e.type_lo ∷ sized16 e.body (encode_extensions es rest)

-- `more` is what follows the name inside its extension, `after` what follows the extension.
pub record ClientHello : Type 0 where
  pub minor : ℕ
  pub header : List ℕ
  pub session : List ℕ
  pub ciphers : List ℕ
  pub compression : List ℕ
  pub before : List Extension
  pub list_hi : ℕ
  pub list_lo : ℕ
  pub name : List ℕ
  pub more : List ℕ
  pub after : List ℕ

abbrev name_body : ClientHello → List ℕ
name_body h = h.list_hi ∷ h.list_lo ∷ 0 ∷ sized16 h.name h.more

abbrev all_extensions : ClientHello → List ℕ
all_extensions h = encode_extensions h.before (0 ∷ 0 ∷ sized16 (name_body h) h.after)

abbrev after_header : ClientHello → List ℕ
after_header h =
    sized8 h.session (sized16 h.ciphers (sized8 h.compression (sized16 (all_extensions h) [])))

abbrev pub message : ClientHello → List ℕ
message h = 1 ∷ (h.header ++ after_header h)

-- The record, with whatever follows it in the segment.
abbrev pub encode_hello : ClientHello → List ℕ → List ℕ
encode_hello h rest = 22 ∷ 3 ∷ h.minor ∷ sized16 (message h) rest

abbrev pub AllOther : List Extension → Type 0
AllOther [] = Unit {0}
AllOther (e ∷ es) =
    (e.type_hi == 0 && e.type_lo == 0 ≡ false) × (length e.body < 2 ^ 16) × AllOther es

-- The lengths fit their fields; the name is the one of a host.
pub record FitsHello (h : ClientHello) : Type 0 where
  pub header_size : length h.header ≡ 37
  pub ciphers_fit : length h.ciphers < 2 ^ 16
  pub before_other : AllOther h.before
  pub name_text : IsText h.name
  pub name_fits : length h.name ≤ 255
  pub name_ne_nil : 0 < length h.name
  pub body_fits : length (name_body h) < 2 ^ 16
  pub extensions_fit : length (all_extensions h) < 2 ^ 16
  pub message_fits : length (message h) < 2 ^ 16

be16_value : (n : ℕ) → n < 2 ^ 16 → n / 256 % 256 * 256 + n % 256 ≡ n
be16_value n h = omega arith

c_string_text : (text : List ℕ) → IsText text → c_string text ≡ text
c_string_text [] h = refl
c_string_text (c ∷ rest) h = ground (arith, c_string_text rest h.1)

server_names-found :
    (fuel : ℕ) (c : ℕ) (cs more : List ℕ)
    → IsText (c ∷ cs)
    → length (c ∷ cs) ≤ 255
    → server_names (suc fuel) (0 ∷ sized16 (c ∷ cs) more) ≡ found (c ∷ cs)
unfolding server_names
server_names-found fuel c cs more t l =
    let v : length (c ∷ cs) / 256 % 256 * 256 + length (c ∷ cs) % 256 ≡ length (c ∷ cs) =
      be16_value (length (c ∷ cs)) (omega arith) in
    let m : min (length (c ∷ cs)) 255 ≡ length (c ∷ cs) = omega arith in
    ground (
      arith,
      v,
      m,
      length-append (c ∷ cs) more,
      take-append (c ∷ cs) more,
      c_string_text (c ∷ cs) t,
    )

parse_server_name_extension-found :
    (hi lo : ℕ) (name more : List ℕ)
    → IsText name
    → length name ≤ 255
    → 0 < length name
    → parse_server_name_extension (hi ∷ lo ∷ 0 ∷ sized16 name more) ≡ found name
unfolding parse_server_name_extension
parse_server_name_extension-found hi lo [] more t l p = absurd (omega arith)
parse_server_name_extension-found hi lo (c ∷ cs) more t l p = server_names-found _ c cs more t l

-- Other extensions are skipped.
extensions-encode_extensions :
    (fuel : ℕ) (es : List Extension) (body after : List ℕ)
    → AllOther es
    → length body < 2 ^ 16
    → length es < fuel
    → extensions fuel (encode_extensions es (0 ∷ 0 ∷ sized16 body after))
      ≡ parse_server_name_extension body
unfolding extensions
extensions-encode_extensions zero es body after o b f = absurd (omega arith)
extensions-encode_extensions (suc fuel) [] body after o b f =
    ground (arith, be16_value (length body) b, length-append body after, take-append body after)
extensions-encode_extensions (suc fuel) (e ∷ es) body after o b f =
    let rest : List ℕ = encode_extensions es (0 ∷ 0 ∷ sized16 body after) in
    ground (
      arith,
      be16_value (length e.body) o.1,
      drop-append e.body rest,
      extensions-encode_extensions fuel es body after o.2 b,
    )

length-encode_extensions :
    (es : List Extension) (rest : List ℕ) → length es ≤ length (encode_extensions es rest)
length-encode_extensions [] rest = omega arith
length-encode_extensions (e ∷ es) rest =
    omega
      (arith, length-append e.body (encode_extensions es rest), length-encode_extensions es rest)

module _ (h : ClientHello) (fits : FitsHello h) where
  parse_extensions-found : parse_extensions (all_extensions h) ≡ found h.name
  unfolding parse_extensions
  parse_extensions-found =
      let body : List ℕ = name_body h in
      extensions-encode_extensions (suc (length (all_extensions h))) h.before body h.after
        fits.before_other fits.body_fits
        (omega (arith, length-encode_extensions h.before (0 ∷ 0 ∷ sized16 body h.after)))
      ∙ parse_server_name_extension-found h.list_hi h.list_lo h.name h.more fits.name_text
          fits.name_fits fits.name_ne_nil

  hello_extensions-found : hello_extensions (sized16 (all_extensions h) []) ≡ found h.name
  unfolding hello_extensions
  hello_extensions-found =
      let bytes : List ℕ = all_extensions h in
      ground (
        arith,
        be16_value (length bytes) fits.extensions_fit,
        length-append bytes [],
        take-append bytes [],
        parse_extensions-found,
      )

  hello_session-found : hello_session (after_header h) ≡ found h.name
  unfolding hello_session hello_ciphers hello_compression
  hello_session-found =
      let extensions_part : List ℕ = sized16 (all_extensions h) [] in
      let compression_part : List ℕ = sized8 h.compression extensions_part in
      rw
        (
          drop-append h.session (sized16 h.ciphers compression_part),
          be16_value (length h.ciphers) fits.ciphers_fit,
          drop-append h.ciphers compression_part,
          drop-append h.compression extensions_part,
        )
        hello_extensions-found

  -- In any ClientHello that is laid out as RFC 5246 and RFC 6066 say, with any other extensions
  -- before and after its server name, any session, ciphers and compression methods, and whatever
  -- follows the record, the parser finds the server name.
  pub parse_tls_header-encode_hello :
      (rest : List ℕ) → parse_tls_header (encode_hello h rest) ≡ found h.name
  unfolding parse_tls_header handshake
  parse_tls_header-encode_hello rest =
      let bytes : List ℕ = message h in
      let after : drop 37 (h.header ++ after_header h) ≡ after_header h =
        rw fits.header_size at (drop-append h.header (after_header h)) in
      ground (
        arith,
        be16_value (length bytes) fits.message_fits,
        length-append bytes rest,
        take-append bytes rest,
        hello_session-found,
        after,
      )
