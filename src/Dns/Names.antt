-- ===== src/Dns/Names.antt =====
-- `get_qname` of dns.c on names as RFC 1035 writes them.
use mathlib.Core.List.{append_assoc, append-nil}
use tun2http.Prelude.{
  ℕ, zero, suc, ◌+◌, ◌-◌, ◌^◌, ◌≤◌, ◌<◌, ◌≡◌, refl, ap, ◌∙◌, sym, Bool, false, List, [], ◌∷◌, ◌++◌,
  if◌then◌else◌, u16, length, length-append, take, take-append, arith,
}
use tun2http.Dns.{named, read, qname_end, qname_loop, get_qname}

-- The bytes at a place in memory.
abbrev pub Holds : (ℕ → ℕ) → ℕ → List ℕ → Type 0
Holds m at [] = Unit {0}
Holds m at (b ∷ bytes) = (m at ≡ b) × Holds m (at + 1) bytes

-- Labels as they stand in a message, each behind its length, and as `qname` shows them.
abbrev pub encode_labels : List (List ℕ) → List ℕ
encode_labels [] = []
encode_labels (label ∷ labels) = length label ∷ (label ++ encode_labels labels)

abbrev pub dotted : List (List ℕ) → List ℕ
dotted [] = []
dotted (label ∷ labels) = label ++ (b'.' ∷ dotted labels)

-- A label has from 1 to 63 bytes.
abbrev pub AreLabels : List (List ℕ) → Type 0
AreLabels [] = Unit {0}
AreLabels (label ∷ labels) = (0 < length label) × (length label < 64) × AreLabels labels

abbrev pub count : List (List ℕ) → ℕ
count [] = 0
count (label ∷ labels) = suc (count labels)

pub Holds-append :
    (m : ℕ → ℕ) (at : ℕ) (xs ys : List ℕ)
    → Holds m at (xs ++ ys)
    → Holds m at xs × Holds m (at + length xs) ys
Holds-append m at [] ys h = let e : at + 0 ≡ at = omega arith in (tt, rw e h)
Holds-append m at (x ∷ xs) ys h =
    let later = Holds-append m (at + 1) xs ys h.1 in
    let e : at + suc (length xs) ≡ at + 1 + length xs = omega arith in
    ((h.0, later.0), rw e later.1)

read-Holds : (m : ℕ → ℕ) (at : ℕ) (xs : List ℕ) → Holds m at xs → read m at (length xs) ≡ xs
read-Holds m at [] h = refl
read-Holds m at (x ∷ xs) h = rw (h.0, read-Holds m (at + 1) xs h.1) refl

-- One label.
qname_loop_label :
    (fuel : ℕ) (m : ℕ → ℕ) (datalen : ℕ) (c : Bool) (off ptr : ℕ) (name label : List ℕ)
    → Holds m ptr (length label ∷ label)
    → 0 < length label
    → length label < 64
    → ptr + 1 + length label ≤ datalen
    → datalen < 2 ^ 16 - 1
    → length name + length label + 1 ≤ 255
    → qname_loop (suc fuel) m datalen c off ptr name
      ≡ qname_loop fuel m datalen c off (ptr + (1 + length label)) (name ++ (label ++ (b'.' ∷ [])))
unfolding qname_loop
qname_loop_label fuel m datalen c off ptr name label h pos small inside wide fits =
    let n : length (name ++ (label ++ (b'.' ∷ []))) ≡ length name + (length label + 1) =
      omega (arith, length-append name (label ++ (b'.' ∷ [])), length-append label (b'.' ∷ [])) in
    let p : u16 (ptr + (length label + 1)) ≡ ptr + (1 + length label) = omega arith in
    let l : m ptr ≡ length label = h.0 in
    let r : read m (ptr + 1) (m ptr) ≡ label = rw l (read-Holds m (ptr + 1) label h.1) in
    ground (arith, n, l, r, p)

pub qname_loop_labels :
    (labels : List (List ℕ)) (fuel : ℕ) (m : ℕ → ℕ) (datalen : ℕ) (c : Bool) (off ptr : ℕ)
    (name : List ℕ)
    → Holds m ptr (encode_labels labels)
    → AreLabels labels
    → ptr + length (encode_labels labels) ≤ datalen
    → datalen < 2 ^ 16 - 1
    → length name + length (dotted labels) ≤ 255
    → qname_loop (count labels + fuel) m datalen c off ptr name
      ≡ qname_loop fuel m datalen c off
          (ptr + length (encode_labels labels))
          (name ++ dotted labels)
qname_loop_labels [] fuel m datalen c off ptr name h are inside wide fits =
    let e : 0 + fuel ≡ fuel = omega arith in
    let e' : ptr + 0 ≡ ptr = omega arith in rw (append-nil name, e, e') refl
qname_loop_labels (label ∷ labels) fuel m datalen c off ptr name h are inside wide fits =
    let n : length (label ++ encode_labels labels) ≡ length label + length (encode_labels labels) =
      length-append label (encode_labels labels) in
    let d : length (label ++ (b'.' ∷ dotted labels)) ≡ length label + 1 + length (dotted labels) =
      omega (arith, length-append label (b'.' ∷ dotted labels)) in
    let name' : List ℕ = name ++ (label ++ (b'.' ∷ [])) in
    let n' : length name' ≡ length name + (length label + 1) =
      omega (arith, length-append name (label ++ (b'.' ∷ [])), length-append label (b'.' ∷ [])) in
    let there = Holds-append m ptr (length label ∷ label) (encode_labels labels) h in
    let place : ptr + suc (length label) ≡ ptr + (1 + length label) = omega arith in
    let later : Holds m (ptr + (1 + length label)) (encode_labels labels) = rw (← place) there.1 in
    let text : name' ++ dotted labels ≡ name ++ (label ++ (b'.' ∷ dotted labels)) =
      append_assoc name (label ++ (b'.' ∷ [])) (dotted labels)
      ∙ ap (λ r. name ++ r) (append_assoc label (b'.' ∷ []) (dotted labels)) in
    let more : suc (count labels) + fuel ≡ suc (count labels + fuel) = omega arith in
    let end : ptr + (1 + length label) + length (encode_labels labels)
        ≡ ptr + suc (length (label ++ encode_labels labels)) =
      omega arith in
    rw (more, ← end, ← text)
      (qname_loop_label (count labels + fuel) m datalen c off ptr name label there.0 are.0 are.1
          (omega arith) wide (omega arith)
        ∙ qname_loop_labels labels fuel m datalen c off (ptr + (1 + length label)) name' later are.2
            (omega arith) wide (omega arith))

-- The labels with dots between them.
abbrev pub join_dots : List (List ℕ) → List ℕ
join_dots [] = []
join_dots (label ∷ []) = label
join_dots (label ∷ next ∷ labels) = label ++ (b'.' ∷ join_dots (next ∷ labels))

dotted-join_dots :
    (label : List ℕ) (labels : List (List ℕ))
    → dotted (label ∷ labels) ≡ join_dots (label ∷ labels) ++ (b'.' ∷ [])
dotted-join_dots label [] = refl
dotted-join_dots label (next ∷ labels) =
    rw (dotted-join_dots next labels)
      (sym (append_assoc label (b'.' ∷ join_dots (next ∷ labels)) (b'.' ∷ [])))

take-dotted :
    (label : List ℕ) (labels : List (List ℕ))
    → take (length (dotted (label ∷ labels)) - 1) (dotted (label ∷ labels))
      ≡ join_dots (label ∷ labels)
take-dotted label labels =
    let text : List ℕ = join_dots (label ∷ labels) in
    let n : length (text ++ (b'.' ∷ [])) - 1 ≡ length text =
      omega (arith, length-append text (b'.' ∷ [])) in
    rw (dotted-join_dots label labels, n) (take-append text (b'.' ∷ []))

pub qname_end-dotted :
    (m : ℕ → ℕ) (c : Bool) (off ptr : ℕ) (label : List ℕ) (labels : List (List ℕ))
    → m ptr ≡ 0
    → qname_end m c off ptr (dotted (label ∷ labels))
      ≡ named (join_dots (label ∷ labels)) (if c then off else u16 (ptr + 1))
unfolding qname_end
qname_end-dotted m c off ptr label labels e =
    let n : length (label ++ (b'.' ∷ dotted labels)) ≡ length label + 1 + length (dotted labels) =
      omega (arith, length-append label (b'.' ∷ dotted labels)) in
    ground (arith, e, n, take-dotted label labels)

pub qname_loop_zero :
    (fuel : ℕ) (m : ℕ → ℕ) (datalen : ℕ) (c : Bool) (off ptr : ℕ) (name : List ℕ)
    → m ptr ≡ 0
    → qname_loop fuel m datalen c off ptr name ≡ qname_end m c off ptr name
unfolding qname_loop
qname_loop_zero zero m datalen c off ptr name e = ground (arith, e)
qname_loop_zero (suc fuel) m datalen c off ptr name e = ground (arith, e)

module _ (m : ℕ → ℕ) (datalen off : ℕ) (label : List ℕ) (labels : List (List ℕ))
    (are : AreLabels (label ∷ labels)) (fits : length (dotted (label ∷ labels)) ≤ 255)
    (wide : datalen < 2 ^ 16 - 1) where
  -- A name of labels of 1 to 63 bytes, at most 255 bytes with their dots, which stands in the data
  -- and is ended by a zero byte, is read as its labels with dots between them, and the place
  -- returned is the one behind it. The loop takes as many rounds as there are labels.
  pub get_qname-encode :
      (fuel : ℕ)
      → Holds m off (encode_labels (label ∷ labels) ++ (0 ∷ []))
      → off + length (encode_labels (label ∷ labels)) ≤ datalen
      → get_qname (count (label ∷ labels) + fuel) m datalen off
        ≡ named (join_dots (label ∷ labels)) (off + length (encode_labels (label ∷ labels)) + 1)
  unfolding get_qname
  get_qname-encode fuel h inside =
      let there = Holds-append m off (encode_labels (label ∷ labels)) (0 ∷ []) h in
      let ptr : ℕ = off + length (encode_labels (label ∷ labels)) in
      let end : u16 (ptr + 1) ≡ ptr + 1 = omega arith in
      qname_loop_labels (label ∷ labels) fuel m datalen false off off [] there.0 are inside wide
        (omega arith)
      ∙ qname_loop_zero fuel m datalen false off ptr (dotted (label ∷ labels)) there.1.0
      ∙ qname_end-dotted m false off ptr label labels there.1.0
      ∙ ap (named (join_dots (label ∷ labels))) end
