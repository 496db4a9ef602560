-- ===== src/Tests/Open.antt =====
-- The theorems on the packets of no session.
use tun2http.Prelude.{refl, [], ◌∷◌, arith}
use tun2http.Tcp.Header.Options.{header_end, max_segment, nop, window_scale}
use tun2http.Tcp.Open.{open_tcp}
use tun2http.Tcp.Open.Start.{OpensWith, open_tcp-encode_all}
use tun2http.Tests.Data.{os_example, syn_example}

open_tcp-encode_all_example :
    OpensWith os_example syn_example 1400 7 [] (open_tcp os_example syn_example [])
open_tcp-encode_all_example =
    open_tcp-encode_all os_example syn_example (max_segment 1400 ∷ nop ∷ window_scale 7 ∷ [])
      (header_end 1 (2 ∷ [])) [] refl (ground arith) refl refl
