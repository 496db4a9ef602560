-- ===== src/Dhcp/Options.antt =====
-- What `check_dhcp` of dhcp.c does with its options.
use tun2http.Prelude.{
  ℕ, ◌+◌, ◌-◌, ◌<◌, ◌≡◌, refl, Option, none, some, List, ◌++◌, ◌==◌, length, take, drop, replicate,
  length-append, length-take, length-drop, min, arith, if◌then◌else◌,
}
use tun2http.Os.{Os, Call}
use tun2http.Session.{UdpSession}
use tun2http.Dhcp.{
  ignored, outside, replied, is_dhcp, dhcp_opcode, store, store_options, options_at, response_size,
  build_response, response_header, response_options, check_dhcp,
}

length-store :
    (buffer bytes stored : List ℕ) (at : ℕ)
    → store buffer at bytes ≡ some stored
    → length stored ≡ length buffer
unfolding store
length-store buffer bytes stored at =
    let n : length (take at buffer ++ (bytes ++ drop (at + length bytes) buffer))
        ≡ min at (length buffer) + (length bytes + (length buffer - (at + length bytes))) =
      omega (
        arith,
        length-append (take at buffer) (bytes ++ drop (at + length bytes) buffer),
        length-append bytes (drop (at + length bytes) buffer),
        length-take at buffer,
        length-drop (at + length bytes) buffer,
      ) in
    ground (arith, n)

store-outside :
    (buffer bytes : List ℕ) (at : ℕ)
    → length buffer < at + length bytes
    → store buffer at bytes ≡ none
unfolding store
store-outside buffer bytes at far = ground arith

store_options-outside :
    (bytes : List ℕ) (stored : Option (List ℕ))
    → ((buffer : List ℕ) → stored ≡ some buffer → length buffer ≡ 500)
    → store_options stored bytes ≡ none
store_options-outside bytes none h = refl
store_options-outside bytes (some buffer) h =
    let n : length buffer ≡ 500 = h buffer refl in
    store-outside buffer (response_options bytes) options_at (omega arith)

-- Wherever the answer's packet is stored, its options are stored outside the buffer.
build_response_fails : (bytes : List ℕ) → build_response bytes ≡ none
unfolding build_response
build_response_fails bytes =
    store_options-outside bytes (store (replicate response_size 0) 0 (response_header bytes))
      (λ buffer e. length-store (replicate response_size 0) (response_header bytes) buffer 0 e)

-- `check_dhcp` never answers: a discover or a request makes it write its options outside the buffer
-- of the answer, any other DHCP packet leaves session and log as they are, and what is no DHCP packet
-- is ignored.
pub check_dhcp-cases :
    (os : Os) (u : UdpSession) (bytes : List ℕ) (log : List Call)
    → check_dhcp os u bytes log ≡ (
        if is_dhcp bytes
        then if dhcp_opcode bytes == 1 then outside else replied u log
        else ignored)
unfolding check_dhcp
check_dhcp-cases os u bytes log = rw (build_response_fails bytes) refl
