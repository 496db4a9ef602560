-- ===== src/Tcp/Header/Options.antt =====
-- When the loop over the options ends.
use tun2http.Prelude.{
  ℕ, zero, suc, ◌+◌, ◌/◌, ◌++◌, ◌%◌, ◌≤◌, ◌<◌, ◌≡◌, refl, some, List, ◌∷◌, [], get_elem?, length,
  drop-append, arith,
}
use tun2http.Tcp.Header.{decoded, unfinished, decode_options, next_mss, next_scale}

-- An option of a kind other than 0 and 1 whose length byte is 0 hangs the loop: however much fuel,
-- it does not end.
pub decode_options_hangs :
    (fuel optlen kind : ℕ) (rest : List ℕ) (mss ws : ℕ)
    → 0 < optlen
    → 1 < kind
    → decode_options fuel optlen (kind ∷ 0 ∷ rest) mss ws ≡ unfinished
unfolding decode_options next_mss next_scale
decode_options_hangs zero optlen kind rest mss ws pos k = ground arith
decode_options_hangs (suc fuel) optlen kind rest mss ws pos k =
    ground (arith, decode_options_hangs fuel optlen kind rest mss ws)

-- The options of a header as RFC 793 and RFC 7323 have them; `other` is any other kind.
pub data TcpOption : Type 0 where
  nop : TcpOption
  max_segment window_scale : ℕ → TcpOption
  other : ℕ → List ℕ → TcpOption

abbrev encode : TcpOption → List ℕ → List ℕ
encode nop rest = 1 ∷ rest
encode (max_segment n) rest = 2 ∷ 4 ∷ (n / 256) ∷ (n % 256) ∷ rest
encode (window_scale n) rest = 3 ∷ 3 ∷ n ∷ rest
encode (other kind bytes) rest = kind ∷ (length bytes + 2) ∷ (bytes ++ rest)

abbrev pub encode_all : List TcpOption → List ℕ → List ℕ
encode_all [] rest = rest
encode_all (o ∷ os) rest = encode o (encode_all os rest)

abbrev option_size : TcpOption → ℕ
option_size nop = 1
option_size (max_segment n) = 4
option_size (window_scale n) = 3
option_size (other kind bytes) = length bytes + 2

abbrev pub options_size : List TcpOption → ℕ
options_size [] = 0
options_size (o ∷ os) = option_size o + options_size os

abbrev IsOther : TcpOption → Type 0
IsOther (other kind bytes) = 3 < kind
IsOther _ = Unit {0}

abbrev pub AllOther : List TcpOption → Type 0
AllOther [] = Unit {0}
AllOther (o ∷ os) = IsOther o × AllOther os

-- The last segment size and the last window scale among the options, if there is one.
abbrev pub last_mss : List TcpOption → ℕ → ℕ
last_mss [] mss = mss
last_mss (max_segment n ∷ os) mss = last_mss os n
last_mss (_ ∷ os) mss = last_mss os mss

abbrev pub last_scale : List TcpOption → ℕ → ℕ
last_scale [] ws = ws
last_scale (window_scale n ∷ os) ws = last_scale os n
last_scale (_ ∷ os) ws = last_scale os ws

-- What ends the options: the header's end, with any byte behind it in the buffer, or the
-- end-of-option-list option, with padding in the header and at least a byte behind it in the buffer.
pub data OptionsEnd : Type 0 where
  header_end : ℕ → List ℕ → OptionsEnd
  list_end : ℕ → ℕ → List ℕ → OptionsEnd

abbrev pub end_bytes : OptionsEnd → List ℕ
end_bytes (header_end b rest) = b ∷ rest
end_bytes (list_end padding b rest) = 0 ∷ b ∷ rest

-- Its part of the header.
abbrev pub end_size : OptionsEnd → ℕ
end_size (header_end b rest) = 0
end_size (list_end padding b rest) = 1 + padding

encode_all_first :
    (os : List TcpOption) (e : OptionsEnd)
    → (c : ℕ) × (get_elem? (encode_all os (end_bytes e)) 0 ≡ some c)
encode_all_first [] (header_end b rest) = (b, refl)
encode_all_first [] (list_end padding b rest) = (0, refl)
encode_all_first (nop ∷ os) e = (1, refl)
encode_all_first (max_segment n ∷ os) e = (2, refl)
encode_all_first (window_scale n ∷ os) e = (3, refl)
encode_all_first (other kind bytes ∷ os) e = (kind, refl)

decode_options-end :
    (e : OptionsEnd) (fuel mss ws : ℕ)
    → end_size e ≤ fuel
    → decode_options fuel (end_size e) (end_bytes e) mss ws ≡ decoded mss ws
unfolding decode_options
decode_options-end (header_end b rest) zero mss ws f = refl
decode_options-end (header_end b rest) (suc fuel) mss ws f = refl
decode_options-end (list_end padding b rest) zero mss ws f = absurd (omega arith)
decode_options-end (list_end padding b rest) (suc fuel) mss ws f = ground arith

-- The loop reads back any list of options that is laid out as RFC 793 and RFC 7323 say, up to the end
-- of the header or to the end-of-option-list option, whatever follows that: it ends within as many
-- rounds as there are option bytes, reads nothing outside the buffer, and finds the last segment size
-- and the last window scale. A byte stands behind the options in the buffer, and options but these
-- two, the empty one and the list's end have kinds above 3.
pub decode_options-encode_all :
    (os : List TcpOption) (e : OptionsEnd) (fuel mss ws : ℕ)
    → AllOther os
    → options_size os + end_size e ≤ fuel
    → decode_options fuel (options_size os + end_size e) (encode_all os (end_bytes e)) mss ws
      ≡ decoded (last_mss os mss) (last_scale os ws)
unfolding decode_options next_mss next_scale
decode_options-encode_all [] e fuel mss ws h f =
    let none_before : 0 + end_size e ≡ end_size e = omega arith in
    rw none_before (decode_options-end e fuel mss ws (omega arith))
decode_options-encode_all (nop ∷ os) e zero mss ws h f = absurd (omega arith)
decode_options-encode_all (nop ∷ os) e (suc fuel) mss ws h f =
    ground (arith, encode_all_first os e, decode_options-encode_all os e fuel mss ws h.1)
decode_options-encode_all (max_segment n ∷ os) e zero mss ws h f = absurd (omega arith)
decode_options-encode_all (max_segment n ∷ os) e (suc fuel) mss ws h f =
    ground (arith, decode_options-encode_all os e fuel n ws h.1)
decode_options-encode_all (window_scale n ∷ os) e zero mss ws h f = absurd (omega arith)
decode_options-encode_all (window_scale n ∷ os) e (suc fuel) mss ws h f =
    ground (arith, decode_options-encode_all os e fuel mss n h.1)
decode_options-encode_all (other kind bytes ∷ os) e zero mss ws h f = absurd (omega arith)
decode_options-encode_all (other kind bytes ∷ os) e (suc fuel) mss ws h f = ground (
  arith,
  drop-append bytes (encode_all os (end_bytes e)),
  decode_options-encode_all os e fuel mss ws h.1,
)
