-- ===== src/Dns.antt =====
-- android_app/app/src/main/cpp/dns.c: the name of a question or an answer, and the two functions
-- that look into DNS messages and report what they find. The code reads behind the data it is
-- given; `m k` is the byte at `data + k`, wherever that is.
pub mod Names
pub mod Pointer
use tun2http.Prelude.{
  ℕ, zero, suc, ◌+◌, ◌-◌, ◌*◌, ◌/◌, ◌%◌, ◌^◌, Bool, true, false, ◌&&◌, ◌||◌, List, [], ◌∷◌, ◌++◌,
  ltb, leb, ◌==◌, if◌then◌else◌, u16, length, take,
}

-- The bytes of the data, and those behind it.
abbrev pub byte_at : List ℕ → (ℕ → ℕ) → ℕ → ℕ
byte_at [] beyond k = beyond k
byte_at (x ∷ xs) beyond zero = x
byte_at (x ∷ xs) beyond (suc k) = byte_at xs beyond k

-- `unfinished` is a loop that has not ended within the fuel.
pub data Qname : Type 0 where
  named : List ℕ → ℕ → Qname
  invalid unfinished : Qname

-- `n` bytes from a place.
abbrev pub read : (ℕ → ℕ) → ℕ → ℕ → List ℕ
read m at zero = []
read m at (suc n) = m at ∷ read m (at + 1) n

-- DNS_QNAME_MAX
abbrev qname_max : ℕ
qname_max = 255

-- What `qname` holds before `noff`, after a label and its dot. `noff` is a byte: at 256 it is 0.
abbrev push_label : List ℕ → List ℕ → List ℕ
push_label name label =
    let name' = name ++ (label ++ (b'.' ∷ [])) in if length name' == 256 then [] else name'

-- What follows the loop: a byte that is not 0 ended it by its `break`. The last dot is cut off.
unfoldable pub qname_end : (ℕ → ℕ) → Bool → ℕ → ℕ → List ℕ → Qname
qname_end m c off ptr name =
    if ltb 0 (m ptr) || length name == 0
    then invalid
    else named (take (length name - 1) name) (if c then off else u16 (ptr + 1))

-- The test of a label of `len` bytes.
abbrev label_fits : ℕ → ℕ → ℕ → ℕ → Bool
label_fits datalen ptr len noff = leb (ptr + 1 + len) datalen && leb (noff + len) qname_max

-- `while (len)`, with fuel, where `len` is the byte at `ptr`.
unfoldable pub qname_loop : ℕ → (ℕ → ℕ) → ℕ → Bool → ℕ → ℕ → List ℕ → Qname
qname_loop zero m datalen c off ptr name =
    if m ptr == 0 then qname_end m c off ptr name else unfinished
qname_loop (suc fuel) m datalen c off ptr name = elim (m ptr == 0) [
  | true ↦ qname_end m c off ptr name
  | false ↦ elim (leb 64 (m ptr)) [
    | true ↦
        qname_loop fuel m datalen true (if c then off else u16 (off + 2))
          (m ptr % 64 * 256 + m (ptr + 1)) name
    | false ↦ elim (label_fits datalen ptr (m ptr) (length name)) [
      | true ↦
          qname_loop fuel m datalen c off (u16 (ptr + (m ptr + 1)))
            (push_label name (read m (ptr + 1) (m ptr)))
      | false ↦ qname_end m c off ptr name
    ]
  ]
]

unfoldable pub get_qname : ℕ → (ℕ → ℕ) → ℕ → ℕ → Qname
get_qname fuel m datalen off = qname_loop fuel m datalen false off off []

-- `ntohs` of the two bytes at a place.
abbrev pub word_at : (ℕ → ℕ) → ℕ → ℕ
word_at m at = m at * 256 + m (at + 1)

-- The bit fields of `struct dns_header`.
abbrev pub dns_qr : (ℕ → ℕ) → ℕ
dns_qr m = m 2 / 128 % 2

abbrev pub dns_opcode : (ℕ → ℕ) → ℕ
dns_opcode m = m 2 / 8 % 16

-- sizeof(struct dns_header)
abbrev dns_header_size : ℕ
dns_header_size = 12

-- What `get_dns_query` makes of a message: 0 with type, class and name, or -1.
pub data DnsQuery : Type 0 where
  dns_query : ℕ → ℕ → List ℕ → DnsQuery
  no_query : DnsQuery
  query_unfinished : DnsQuery

abbrev after_query : (ℕ → ℕ) → ℕ → Qname → DnsQuery
after_query m datalen unfinished = query_unfinished
after_query m datalen invalid = no_query
after_query m datalen (named qname off) =
    if ltb 0 off && off + 4 == datalen
    then dns_query (word_at m off) (word_at m (off + 2)) qname
    else no_query

unfoldable pub get_dns_query : ℕ → (ℕ → ℕ) → ℕ → DnsQuery
get_dns_query fuel m datalen =
    let query = after_query m datalen (get_qname fuel m datalen dns_header_size) in
    if ltb datalen (dns_header_size + 1)
    then no_query
    else if dns_qr m == 0 && dns_opcode m == 0 && ltb 0 (word_at m 4)
    then query
    else no_query

-- `parse_dns_response` changes nothing; it comes back, or has not within the fuel.
pub data Parsed : Type 0 where
  parsed parse_unfinished : Parsed

-- The step from an answer's name to the next answer, where there is one.
abbrev after_answer : (ℕ → ℕ) → ℕ → Qname → (ℕ → Parsed) → Parsed
after_answer m datalen unfinished next = parse_unfinished
after_answer m datalen invalid next = parsed
after_answer m datalen (named name off) next = elim (ltb 0 off && leb (off + 10) datalen) [
  | false ↦ parsed
  | true ↦ elim (leb (off + 10 + word_at m (off + 8)) datalen) [
    | true ↦ next (off + 10 + word_at m (off + 8))
    | false ↦ parsed
  ]
]

-- The loop over the answers. `off` is cut to 16 bits where it is passed on.
unfoldable pub parse_answers : ℕ → (ℕ → ℕ) → ℕ → ℕ → ℕ → Parsed
parse_answers fuel m datalen zero off = parsed
parse_answers fuel m datalen (suc acount) off =
    after_answer m datalen (get_qname fuel m datalen (u16 off))
      (λ off'. parse_answers fuel m datalen acount off')

abbrev pub after_question : ℕ → (ℕ → ℕ) → ℕ → Qname → Parsed
after_question fuel m datalen unfinished = parse_unfinished
after_question fuel m datalen invalid = parsed
after_question fuel m datalen (named name off) =
    let answers = parse_answers fuel m datalen (word_at m 6) (off + 4) in
    if ltb 0 off && leb (off + 4) datalen then answers else parsed

unfoldable pub parse_dns_response : ℕ → (ℕ → ℕ) → ℕ → Parsed
parse_dns_response fuel m datalen =
    let question = after_question fuel m datalen (get_qname fuel m datalen dns_header_size) in
    if ltb datalen (dns_header_size + 1)
    then parsed
    else if dns_qr m == 1 && dns_opcode m == 0 && (ltb 0 (word_at m 4) && ltb 0 (word_at m 6))
    then question
    else parsed
