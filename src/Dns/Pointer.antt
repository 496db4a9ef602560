-- ===== src/Dns/Pointer.antt =====
-- `get_qname` of dns.c on compression pointers (RFC 1035, 4.1.4).
use mathlib.Core.List.{append_assoc}
use tun2http.Prelude.{
  ℕ, zero, suc, ◌+◌, ◌-◌, ◌*◌, ◌/◌, ◌%◌, ◌^◌, ◌≤◌, ◌<◌, ◌≡◌, refl, ap, sym, ◌∙◌, Bool, true, false,
  List, [], ◌∷◌, ◌++◌, u16, length, arith,
}
use tun2http.Dns.{
  named, unfinished, qname_end, qname_loop, get_qname, parse_unfinished, parse_dns_response,
  word_at, dns_qr, dns_opcode,
}
use tun2http.Dns.Names.{
  Holds, Holds-append, encode_labels, dotted, AreLabels, count, join_dots, qname_loop_labels,
  qname_loop_zero, qname_end-dotted,
}

-- A pointer to the place `p`, below 2 ^ 14.
abbrev encode_pointer : ℕ → List ℕ
encode_pointer p = (192 + p / 256) ∷ (p % 256) ∷ []

qname_loop_pointer :
    (fuel : ℕ) (m : ℕ → ℕ) (datalen off ptr p : ℕ) (name : List ℕ)
    → Holds m ptr (encode_pointer p)
    → p < 2 ^ 14
    → qname_loop (suc fuel) m datalen false off ptr name
      ≡ qname_loop fuel m datalen true (u16 (off + 2)) p name
unfolding qname_loop
qname_loop_pointer fuel m datalen off ptr p name h small =
    let l : m ptr ≡ 192 + p / 256 = h.0 in
    let l' : m (ptr + 1) ≡ p % 256 = h.1.0 in
    let place : m ptr % 64 * 256 + m (ptr + 1) ≡ p = omega arith in ground (arith, l, place)

dotted-append :
    (before labels : List (List ℕ)) → dotted (before ++ labels) ≡ dotted before ++ dotted labels
dotted-append [] labels = refl
dotted-append (b ∷ before) labels =
    rw (dotted-append before labels) (sym (append_assoc b (b'.' ∷ dotted before) (dotted labels)))

qname_end-dotted_append :
    (m : ℕ → ℕ) (off ptr : ℕ) (before : List (List ℕ)) (label : List ℕ) (labels : List (List ℕ))
    → m ptr ≡ 0
    → qname_end m true off ptr (dotted before ++ dotted (label ∷ labels))
      ≡ named (join_dots (before ++ (label ∷ labels))) off
qname_end-dotted_append m off ptr [] label labels e = qname_end-dotted m true off ptr label labels e
qname_end-dotted_append m off ptr (b ∷ before) label labels e =
    rw (← dotted-append (b ∷ before) (label ∷ labels))
      (qname_end-dotted m true off ptr b (before ++ (label ∷ labels)) e)

module _ (m : ℕ → ℕ) (datalen off p : ℕ) (before : List (List ℕ)) (label : List ℕ)
    (labels : List (List ℕ)) where
  -- Labels that end in a pointer to a name further on or back: the name is the labels of both, with
  -- dots between them. The place returned is `off + 2`, which is behind the pointer only where no
  -- label stands before it.
  pub get_qname-encode_pointer :
      (fuel : ℕ)
      → Holds m off (encode_labels before ++ encode_pointer p)
      → Holds m p (encode_labels (label ∷ labels) ++ (0 ∷ []))
      → p < 2 ^ 14
      → AreLabels before
      → AreLabels (label ∷ labels)
      → off + length (encode_labels before) ≤ datalen
      → p + length (encode_labels (label ∷ labels)) ≤ datalen
      → datalen < 2 ^ 16 - 2
      → length (dotted before) + length (dotted (label ∷ labels)) ≤ 255
      → get_qname (count before + suc (count (label ∷ labels) + fuel)) m datalen off
        ≡ named (join_dots (before ++ (label ∷ labels))) (off + 2)
  unfolding get_qname
  get_qname-encode_pointer fuel h there small are are' inside inside' wide fits =
      let here = Holds-append m off (encode_labels before) (encode_pointer p) h in
      let more = Holds-append m p (encode_labels (label ∷ labels)) (0 ∷ []) there in
      let at : ℕ = off + length (encode_labels before) in
      let end : ℕ = p + length (encode_labels (label ∷ labels)) in
      let back : u16 (off + 2) ≡ off + 2 = omega arith in
      qname_loop_labels before (suc (count (label ∷ labels) + fuel)) m datalen false off off []
        here.0 are inside (omega arith) (omega arith)
      ∙ qname_loop_pointer (count (label ∷ labels) + fuel) m datalen off at p (dotted before) here.1
          small
      ∙ qname_loop_labels (label ∷ labels) fuel m datalen true (u16 (off + 2)) p (dotted before)
          more.0 are' inside' (omega arith) fits
      ∙ qname_loop_zero fuel m datalen true (u16 (off + 2)) end _ more.1.0
      ∙ qname_end-dotted_append m (u16 (off + 2)) end before label labels more.1.0
      ∙ ap (named (join_dots (before ++ (label ∷ labels)))) back

-- A pointer to itself: the loop does not end, whatever the fuel.
qname_loop_cycle :
    (fuel : ℕ) (m : ℕ → ℕ) (datalen off p : ℕ) (c : Bool) (name : List ℕ)
    → Holds m p (encode_pointer p)
    → p < 2 ^ 14
    → qname_loop fuel m datalen c off p name ≡ unfinished
unfolding qname_loop
qname_loop_cycle zero m datalen off p c name h small =
    let l : m p ≡ 192 + p / 256 = h.0 in ground (arith, l)
qname_loop_cycle (suc fuel) m datalen off p c name h small =
    let l : m p ≡ 192 + p / 256 = h.0 in
    let l' : m (p + 1) ≡ p % 256 = h.1.0 in
    let place : m p % 64 * 256 + m (p + 1) ≡ p = omega arith in
    ground (
      arith,
      l,
      place,
      qname_loop_cycle fuel m datalen off p true name h small,
      qname_loop_cycle fuel m datalen (u16 (off + 2)) p true name h small,
    )

-- An answer with a question, whose name is a pointer to itself, keeps `parse_dns_response` in its
-- loop for ever.
pub parse_dns_response_hangs :
    (fuel : ℕ) (m : ℕ → ℕ) (datalen : ℕ)
    → 13 ≤ datalen
    → dns_qr m ≡ 1
    → dns_opcode m ≡ 0
    → 0 < word_at m 4
    → 0 < word_at m 6
    → Holds m 12 (encode_pointer 12)
    → parse_dns_response fuel m datalen ≡ parse_unfinished
unfolding parse_dns_response get_qname
parse_dns_response_hangs fuel m datalen long qr opcode questions answers h =
    ground (arith, qname_loop_cycle fuel m datalen 12 12 false [] h (omega arith))
