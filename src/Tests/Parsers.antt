-- ===== src/Tests/Parsers.antt =====
-- The theorems on TLS, HTTP, DNS and DHCP messages.
use tun2http.Prelude.{ℕ, ◌≡◌, refl, List, [], ◌∷◌, ◌++◌, arith, replicate}
use tun2http.Tls.{found, parse_tls_header}
use tun2http.Tls.Bounds.{IsAnswer, parse_tls_header-IsAnswer}
use tun2http.Tls.Hello.{ClientHello, FitsHello, encode_hello, parse_tls_header-encode_hello}
use tun2http.Http.{patched, patch_http_url, host_header, http_prefix, is_text}
use tun2http.Http.Rewrite.{get_word, patch_http_url-patched}
use tun2http.Dns.{named, get_qname, byte_at, parse_unfinished, parse_dns_response}
use tun2http.Dns.Names.{get_qname-encode}
use tun2http.Dns.Pointer.{get_qname-encode_pointer, parse_dns_response_hangs}
use tun2http.Dhcp.{outside, check_dhcp, is_dhcp, dhcp_opcode}
use tun2http.Dhcp.Options.{check_dhcp-cases}
use tun2http.Tests.Data.{os_example, udp_example}

parse_tls_header-IsAnswer_example : IsAnswer (parse_tls_header (22 ∷ 3 ∷ 1 ∷ 0 ∷ 9 ∷ 1 ∷ []))
parse_tls_header-IsAnswer_example = parse_tls_header-IsAnswer (22 ∷ 3 ∷ 1 ∷ 0 ∷ 9 ∷ 1 ∷ [])

abbrev pub hello_example : ClientHello
hello_example = record {
  minor = 1;
  header = replicate 37 7;
  session = 1 ∷ 2 ∷ [];
  ciphers = 0 ∷ 47 ∷ [];
  compression = 0 ∷ [];
  before = record { type_hi = 0; type_lo = 10; body = 0 ∷ 0 ∷ [] } ∷ [];
  list_hi = 0;
  list_lo = 6;
  name = b'a' ∷ b'.' ∷ b'b' ∷ [];
  more = [];
  after = [];
}

pub hello_example-FitsHello : FitsHello hello_example
hello_example-FitsHello = record {
  header_size = refl;
  ciphers_fit = omega arith;
  before_other = ground arith;
  name_text = ground arith;
  name_fits = omega arith;
  name_ne_nil = omega arith;
  body_fits = omega arith;
  extensions_fit = omega arith;
  message_fits = omega arith;
}

parse_tls_header-encode_hello_example :
    parse_tls_header (encode_hello hello_example (9 ∷ [])) ≡ found (b'a' ∷ b'.' ∷ b'b' ∷ [])
parse_tls_header-encode_hello_example =
    parse_tls_header-encode_hello hello_example hello_example-FitsHello (9 ∷ [])

-- GET / with a host `a.b`.
abbrev target_example : List ℕ
target_example = b'/' ∷ b' ' ∷ 13 ∷ 10 ∷ (host_header ++ (b'a' ∷ b'.' ∷ b'b' ∷ 13 ∷ 10 ∷ []))

abbrev request_example : List ℕ
request_example = get_word ++ target_example

abbrev zeros : ℕ → ℕ
zeros k = 0

abbrev patched_example : List ℕ
patched_example = get_word ++ (http_prefix ++ ((b'a' ∷ b'.' ∷ b'b' ∷ []) ++ target_example))

patch_http_url-patched_example : patch_http_url zeros request_example ≡ patched patched_example
patch_http_url-patched_example =
    patch_http_url-patched request_example [] target_example
      (get_word ++ (b'/' ∷ b' ' ∷ 13 ∷ 10 ∷ [])) (b'a' ∷ b'.' ∷ b'b' ∷ []) (10 ∷ []) zeros refl refl
      refl refl (ground arith) (omega arith) (unfold is_text in refl)

-- `ab.c` at 12, and a pointer to it behind `d` at 18.
abbrev name_bytes : List ℕ
name_bytes = replicate 12 0 ++ (2 ∷ b'a' ∷ b'b' ∷ 1 ∷ b'c' ∷ 0 ∷ 1 ∷ b'd' ∷ 192 ∷ 12 ∷ [])

get_qname-encode_example :
    get_qname 5 (byte_at name_bytes zeros) 22 12 ≡ named (b'a' ∷ b'b' ∷ b'.' ∷ b'c' ∷ []) 18
get_qname-encode_example =
    get_qname-encode (byte_at name_bytes zeros) 22 12 (b'a' ∷ b'b' ∷ []) ((b'c' ∷ []) ∷ [])
      (ground arith) (omega arith) (omega arith) 3 (ground arith) (omega arith)

get_qname-encode_pointer_example :
    get_qname 5 (byte_at name_bytes zeros) 22 18
    ≡ named (b'd' ∷ b'.' ∷ b'a' ∷ b'b' ∷ b'.' ∷ b'c' ∷ []) 20
get_qname-encode_pointer_example =
    get_qname-encode_pointer (byte_at name_bytes zeros) 22 18 12 ((b'd' ∷ []) ∷ [])
      (b'a' ∷ b'b' ∷ []) ((b'c' ∷ []) ∷ []) 1 (ground arith) (ground arith) (omega arith)
      (ground arith) (ground arith) (omega arith) (omega arith) (omega arith) (omega arith)

-- One question and one answer, the name a pointer to itself.
abbrev cycle_bytes : List ℕ
cycle_bytes = 0 ∷ 0 ∷ 128 ∷ 0 ∷ 0 ∷ 1 ∷ 0 ∷ 1 ∷ 0 ∷ 0 ∷ 0 ∷ 0 ∷ 192 ∷ 12 ∷ []

parse_dns_response_hangs_example :
    parse_dns_response 1000000 (byte_at cycle_bytes zeros) 14 ≡ parse_unfinished
parse_dns_response_hangs_example =
    parse_dns_response_hangs 1000000 (byte_at cycle_bytes zeros) 14 (omega arith) refl refl
      (omega arith) (omega arith) (ground arith)

-- A discover.
abbrev discover_example : List ℕ
discover_example = 1 ∷ 1 ∷ 6 ∷ (replicate 233 0 ++ (0x63 ∷ 0x82 ∷ 0x53 ∷ 0x63 ∷ []))

check_dhcp-cases_example : check_dhcp os_example udp_example discover_example [] ≡ outside
unfolding is_dhcp dhcp_opcode
check_dhcp-cases_example = check_dhcp-cases os_example udp_example discover_example []
