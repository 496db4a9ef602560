-- ===== src/Tcp/Stream/Forward.antt =====
-- The queue and the loop that sends it deliver the stream.
use tun2http.Prelude.{
  ℕ, ◌+◌, ◌-◌, ◌≤◌, ◌<◌, ◌^◌, ◌≡◌, refl, sym, ap, ◌∙◌, Bool, true, false, not, Option, none, some,
  List, [], ◌∷◌, ◌++◌, ◌==◌, u32, sub32, arith, length, take, drop, Bool-cases, inl, inr, min,
  append_assoc, drop-take, take-take, take-length, drop-drop, take-add, swap16, ==_refl,
  length-drop, length-take,
}
use tun2http.Os.{Os, Call}
use tun2http.Util.Compare.{compare_u32_eq}
use tun2http.Session.{Segment, TcpSession}
use tun2http.Tcp.Queue.{queue_segment, queue_tcp, new_segment, again}
use tun2http.Tcp.Check.{head_ready}
use tun2http.Tcp.Socket.{send_forward, outgoing, pending, count_sent}
use tun2http.Tcp.Socket.Forward.{send_forward_round, sends, taken, taken-le, head_ready_seq}
use tun2http.Tcp.Stream.{same_socket, took, accepted, IsTaking, place, Carries, AllCarry, Delivers}

module _ (stream : List ℕ) (base : ℕ) where
  again-Carries :
      (q : Segment) (bytes : List ℕ)
      → Carries stream base q
      → take (length bytes) bytes ≡ take (length bytes) (drop (place base q.seq) stream)
      → Carries stream base (again q bytes)
  again-Carries q bytes h e = ground (
    arith,
    take-take q.len (length bytes) bytes,
    take-take q.len (length bytes) (drop (place base q.seq) stream),
  )

  -- The unsent bytes of a segment are those of the stream behind the sent ones.
  pending-Carries :
      (q : Segment)
      → Carries stream base q
      → pending q ≡ take (q.len - q.sent) (drop (place base q.seq + q.sent) stream)
  pending-Carries q h =
      sym (drop-take q.sent q.len q.bytes)
      ∙ ap (drop q.sent) h.carried
      ∙ drop-take q.sent q.len (drop (place base q.seq) stream)
      ∙ ap (take (q.len - q.sent)) (drop-drop q.sent (place base q.seq) stream)

  partial-Carries :
      (q : Segment) (n : ℕ)
      → Carries stream base q
      → n ≤ q.len - q.sent
      → Carries stream base (record q { sent = q.sent + n })
  partial-Carries q n h le = record {
    seq_fits = h.seq_fits;
    within = h.within;
    carried = h.carried;
    sent_le = omega (arith, h.sent_le);
    len_fits = h.len_fits;
  }

  new_segment-Carries :
      (seq : ℕ) (psh : Bool) (bytes : List ℕ)
      → seq < 2 ^ 32
      → place base seq + length bytes ≤ length stream
      → bytes ≡ take (length bytes) (drop (place base seq) stream)
      → Carries stream base (new_segment seq psh bytes)
  new_segment-Carries seq psh bytes fits within e = record {
    seq_fits = fits;
    within = within;
    carried = take-length bytes ∙ e;
    sent_le = omega arith;
    len_fits = omega arith;
  }

  queue_segment-AllCarry :
      (seq : ℕ) (psh : Bool) (bytes : List ℕ) (queue : List Segment)
      → seq < 2 ^ 32
      → place base seq + length bytes ≤ length stream
      → bytes ≡ take (length bytes) (drop (place base seq) stream)
      → AllCarry stream base queue
      → AllCarry stream base (queue_segment seq psh bytes queue)
  unfolding queue_segment
  queue_segment-AllCarry seq psh bytes [] fits within e h =
      (new_segment-Carries seq psh bytes fits within e, tt)
  queue_segment-AllCarry seq psh bytes (q ∷ rest) fits within e h =
      let same : q.seq ≡ seq → Carries stream base (again q bytes) = λ k.
        again-Carries q bytes h.0 (
          take-length bytes
          ∙ e
          ∙ ap (λ (n : ℕ). take (length bytes) (drop (place base n) stream)) (sym k)) in
      ground (
        arith,
        same,
        compare_u32_eq q.seq seq,
        new_segment-Carries seq psh bytes fits within e,
        queue_segment-AllCarry seq psh bytes rest fits within e h.1,
      )

  -- Data of the stream, wherever in it, may be filed at any time.
  pub queue_tcp-AllCarry :
      (seq : ℕ) (psh : Bool) (bytes : List ℕ) (cur : TcpSession)
      → seq < 2 ^ 32
      → place base seq + length bytes ≤ length stream
      → bytes ≡ take (length bytes) (drop (place base seq) stream)
      → AllCarry stream base cur.forward
      → AllCarry stream base (queue_tcp seq psh bytes cur).forward
  unfolding queue_tcp
  queue_tcp-AllCarry seq psh bytes cur fits within e h =
      ground (arith, queue_segment-AllCarry seq psh bytes cur.forward fits within e h)

place-add :
    (base seq k : ℕ)
    → base < 2 ^ 32
    → seq < 2 ^ 32
    → place base seq + k < 2 ^ 32
    → place base (u32 (seq + k)) ≡ place base seq + k
place-add base seq k hb hs h = omega arith

same_socket_refl : (socket : Option ℕ) → same_socket socket socket ≡ true
same_socket_refl none = refl
same_socket_refl (some a) = ==_refl a

accepted-send :
    (os : Os) (socket : Option ℕ) (bytes : List ℕ) (more : Bool) (log : List Call)
    → accepted os socket (Call.send socket bytes more ∷ log)
      ≡ accepted os socket log ++ took (os.send log socket bytes more) bytes
unfolding accepted
accepted-send os socket bytes more log = rw (same_socket_refl socket) refl

pub outgoing-eq-pending :
    (os : Os) (patch : List ℕ → Option (List ℕ)) (cur : TcpSession) (q : Segment)
    → (swap16 cur.dest == 80) ≡ false
    → outgoing os patch cur q ≡ pending q
unfolding outgoing
outgoing-eq-pending os patch cur q h = rw h refl

module _ (os : Os) (patch : List ℕ → Option (List ℕ)) (socket : Option ℕ) (stream : List ℕ)
    (base : ℕ) (taking : IsTaking os socket) (short : length stream < 2 ^ 32)
    (base_fits : base < 2 ^ 32) where
  -- What a send counts is what the system has taken.
  taken-accepted :
      (cur : TcpSession) (q : Segment) (log : List Call)
      → (swap16 cur.dest == 80) ≡ false
      → Carries stream base q
      → accepted os socket (sends os patch socket cur q ∷ log)
        ≡ accepted os socket log ++ take (taken os patch socket cur q log) (pending q)
  taken-accepted cur q log plain h =
      let bytes : List ℕ = outgoing os patch cur q in
      let same : bytes ≡ pending q = outgoing-eq-pending os patch cur q plain in
      let (n, sent, le) = taking log bytes (not q.psh) in
      let size : length bytes ≡ q.len - q.sent =
        ap length same
        ∙ omega (
          arith,
          length-take (q.len - q.sent) (drop q.sent q.bytes),
          length-drop q.sent q.bytes,
          h.sent_le,
          h.len_fits,
        ) in
      let whole : min n (q.len - q.sent) ≡ n = omega arith in
      accepted-send os socket bytes (not q.psh) log ∙ rw (sent, whole, same) refl

  -- A round of the loop: the bytes that it counts are those that the stream has next.
  round-given :
      (before : List ℕ) (cur : TcpSession) (q : Segment) (log : List Call)
      → (swap16 cur.dest == 80) ≡ false
      → Carries stream base q
      → u32 (q.seq + q.sent) ≡ cur.remote_seq
      → accepted os socket log ≡ before ++ take (place base cur.remote_seq) stream
      → let n = taken os patch socket cur q log in
        accepted os socket (sends os patch socket cur q ∷ log)
        ≡ before ++ take (place base (u32 (q.seq + (q.sent + n)))) stream
  round-given before cur q log plain h seq given =
      let n : ℕ = taken os patch socket cur q log in
      let le : n ≤ q.len - q.sent = taken-le os patch socket cur q log in
      let k : ℕ = place base q.seq + q.sent in
      let at : place base cur.remote_seq ≡ k =
        ap (place base) (sym seq)
        ∙ place-add base q.seq q.sent base_fits h.seq_fits (omega (arith, h.within, h.sent_le)) in
      let next : place base (u32 (q.seq + (q.sent + n))) ≡ k + n =
        place-add base q.seq (q.sent + n) base_fits h.seq_fits (omega (arith, h.within, h.sent_le))
        ∙ omega arith in
      let new : take n (pending q) ≡ take n (drop k stream) =
        ap (take n) (pending-Carries stream base q h)
        ∙ take-take n (q.len - q.sent) (drop k stream) le in
      taken-accepted cur q log plain h
      ∙ ap (λ (l : List ℕ). l ++ take n (pending q)) given
      ∙ rw (at, new, next)
          (append_assoc before (take k stream) (take n (drop k stream))
            ∙ ap (λ (l : List ℕ). before ++ l) (take-add k n stream))

  -- Where sends do not fail and no data is rewritten, and the socket was given the stream up to
  -- `remote_seq`, so it is after the loop, whatever order the queue's data came in: what the loop
  -- sends is the stream's next bytes, with none left out, repeated or changed.
  pub send_forward-Delivers :
      (before : List ℕ) (queue : List Segment) (cur : TcpSession) (size : ℕ) (fwd : Bool)
      (log : List Call)
      → (swap16 cur.dest == 80) ≡ false
      → Delivers os socket before stream base (record cur { forward = queue }) log
      → let after = send_forward os patch socket queue cur size fwd log in
        Delivers os socket before stream base after.1 after.2
  send_forward-Delivers before [] cur size fwd log plain h = unfold send_forward in h
  send_forward-Delivers before (q ∷ rest) cur size fwd log plain h =
      let n : ℕ = taken os patch socket cur q log in
      let le : n ≤ q.len - q.sent = taken-le os patch socket cur q log in
      let c : Carries stream base q = h.queued.0 in
      let round = send_forward_round os patch socket q rest cur size fwd log in
      elim (Bool-cases (head_ready (q ∷ rest) cur.remote_seq size)) [
        | inr waits ↦ rw (round, waits) h
        | inl ready ↦
            let seq : u32 (q.seq + q.sent) ≡ cur.remote_seq = head_ready_seq q rest _ size ready in
            let given = round-given before cur q log plain c seq h.given in
            let moved : place base (u32 (q.seq + (q.sent + n))) ≡ place base q.seq + (q.sent + n) =
              place-add base q.seq (q.sent + n) base_fits c.seq_fits
                (omega (arith, c.within, c.sent_le)) in
            let in_stream : place base (u32 (q.seq + (q.sent + n))) ≤ length stream =
              omega (arith, c.within, c.sent_le) in
            elim (Bool-cases (q.len == q.sent + n)) [
              | inl all ↦
                  rw (round, ready, all)
                    (send_forward-Delivers before rest (count_sent cur q n) (sub32 size n) true
                      (sends os patch socket cur q ∷ log) plain
                      (record {
                        queued = h.queued.1;
                        remote_fits = omega arith;
                        reached = in_stream;
                        given = given;
                      }))
              | inr part ↦
                  rw (round, ready, part)
                    (record {
                      queued = (partial-Carries stream base q n c le, h.queued.1);
                      remote_fits = omega arith;
                      reached = in_stream;
                      given = given;
                    })
            ]
      ]
