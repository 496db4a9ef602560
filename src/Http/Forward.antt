-- ===== src/Http/Forward.antt =====
-- What `check_tcp_socket` of tcp.c sends of a request for port 80, with `patch_http_url`.
use tun2http.Prelude.{
  ℕ, ◌+◌, ◌≤◌, ◌<◌, ◌≡◌, refl, true, false, some, List, [], ◌∷◌, ◌++◌, ◌==◌, swap16, length, arith,
  Option-cases, inl, inr,
}
use tun2http.Os.{Os}
use tun2http.Session.{Segment, TcpSession}
use tun2http.Tcp.Socket.{pending, outgoing}
use tun2http.Tcp.Stream.Progress.{Lengthens}
use tun2http.Http.{
  Patched, kept, crashed, patched, host_header, http_colon, http_prefix, is_text, returned,
  patch_http_url, patch_with,
}
use tun2http.Http.Rewrite.{NoReturn, get_word, length-patch_http_url, patch_http_url-patched}
use tun2http.Http.Find.{is_free}

returned-patched : (r : Patched) (bytes : List ℕ) → returned r ≡ some bytes → r ≡ patched bytes
returned-patched kept bytes h = ground arith
returned-patched crashed bytes h = ground arith
returned-patched (patched other) bytes h = ground arith

length-patch_with :
    (beyond : List ℕ → ℕ → ℕ) (data_bytes new_data : List ℕ)
    → patch_with beyond data_bytes ≡ some new_data
    → (length data_bytes + 7 ≤ length new_data) × (length new_data ≤ length data_bytes + 518)
unfolding patch_with
length-patch_with beyond data_bytes new_data h =
    length-patch_http_url (beyond data_bytes) data_bytes new_data
      (returned-patched (patch_http_url (beyond data_bytes) data_bytes) new_data h)

-- `patch_http_url` shortens no request.
pub patch_with-Lengthens : (beyond : List ℕ → ℕ → ℕ) → Lengthens (patch_with beyond)
patch_with-Lengthens beyond bytes new e = omega (arith, length-patch_with beyond bytes new e)

-- With `patch_http_url` in its place, a segment for another port than 80 is sent as it is, and any
-- segment is sent with at most 518 bytes more than it has, never with fewer.
length-outgoing :
    (os : Os) (beyond : List ℕ → ℕ → ℕ) (cur : TcpSession) (q : Segment)
    → let n = length (outgoing os (patch_with beyond) cur q) in
      ((swap16 cur.dest == 80 ≡ false) → outgoing os (patch_with beyond) cur q ≡ pending q)
      × (length (pending q) ≤ n)
      × (n ≤ length (pending q) + 518)
unfolding outgoing
length-outgoing os beyond cur q = elim (Option-cases (patch_with beyond (pending q))) [
  | inl e ↦ rw e (ground arith)
  | inr (new_data, e) ↦
      let le = length-patch_with beyond (pending q) new_data e in rw e (ground arith)
]

-- The first segment of a request for port 80 that starts with `GET `, when it holds a `Host: `
-- header: what goes to the socket is the request with `http://` and the host behind `GET `.
outgoing-patched :
    (os : Os) (beyond : List ℕ → ℕ → ℕ) (cur : TcpSession) (q : Segment)
    (target front host rest : List ℕ)
    → swap16 cur.dest ≡ 80
    → pending q ≡ get_word ++ target
    → pending q ≡ front ++ (host_header ++ (host ++ (13 ∷ rest)))
    → is_free b'H'
        (b'o' ∷ b's' ∷ b't' ∷ b':' ∷ b' ' ∷ [])
        front
        (host_header ++ (host ++ (13 ∷ rest)))
      ≡ true
    → NoReturn host
    → length host < 511
    → is_text http_colon (record { bytes = target; beyond = beyond (pending q) }) ≡ false
    → outgoing os (patch_with beyond) cur q ≡ get_word ++ (http_prefix ++ (host ++ target))
unfolding outgoing patch_with
outgoing-patched os beyond cur q target front host rest port request header free text fits
      relative =
    let e : patch_http_url (beyond (pending q)) (pending q)
        ≡ patched (get_word ++ (http_prefix ++ (host ++ target))) =
      patch_http_url-patched (pending q) [] target front host rest (beyond (pending q)) request
        header refl free text fits relative in
    rw (port, e) refl
