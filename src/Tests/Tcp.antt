-- ===== src/Tests/Tcp.antt =====
-- The theorems on packets, queues and windows.
use tun2http.Prelude.{
  length, ◌<◌, ◌/◌, ◌^◌, ◌≡◌, refl, true, false, some, none, List, [], ◌∷◌, arith,
}
use tun2http.Util.{compare_u32, calc_checksum}
use tun2http.Tcp.Queue.{queue_tcp}
use tun2http.Tcp.Queue.Content.{find, merged, find-queue_tcp}
use tun2http.Tcp.Write.{Flags, tcp_segment}
use tun2http.Tcp.Write.Packet.{tcp_segment_verifies}
use tun2http.Tcp.Window.{get_receive_window}
use tun2http.Tcp.Window.Bounds.{get_receive_window_fits}
use tun2http.Tcp.Header.{decode_options, decoded, unfinished}
use tun2http.Tcp.Header.Options.{
  list_end, TcpOption, nop, max_segment, window_scale, other, encode_all, decode_options-encode_all,
  decode_options_hangs,
}
use tun2http.Packet.Pseudo.{receiver_pseudo}
use tun2http.Tests.Data.{os_example, tcp_example, node_example}

abbrev flags_example : Flags
flags_example = record { syn = true; ack = true; fin = false; rst = false }

-- A SYN-ACK with three bytes behind it.
tcp_segment_verifies_example :
    calc_checksum
      (calc_checksum 0 (
        receiver_pseudo 4 6
          (length (tcp_segment tcp_example flags_example (1 ∷ 2 ∷ 3 ∷ [])))
          tcp_example.daddr
          tcp_example.saddr))
      (tcp_segment tcp_example flags_example (1 ∷ 2 ∷ 3 ∷ []))
    ≡ 65535
tcp_segment_verifies_example =
    tcp_segment_verifies tcp_example flags_example
      (record {
        source_address = record { are_bytes = omega arith; size = refl };
        dest_address = record { are_bytes = omega arith; size = refl };
        scale_byte = omega arith;
      })
      (1 ∷ 2 ∷ 3 ∷ []) (omega arith) (omega arith)

find-queue_tcp_example :
    find 504 (queue_tcp 504 true (1 ∷ 2 ∷ []) tcp_example).forward
    ≡ some (merged 504 true (1 ∷ 2 ∷ []) none)
unfolding compare_u32
find-queue_tcp_example =
    find-queue_tcp 2147483648 2147484648 504 504 true (1 ∷ 2 ∷ []) tcp_example (omega arith)
      (omega arith) (ground arith) (ground arith) (ground arith) (ground arith)

get_receive_window_fits_example : get_receive_window os_example [] node_example / 2 ^ 2 < 2 ^ 16
get_receive_window_fits_example = get_receive_window_fits os_example [] node_example

abbrev options_example : List TcpOption
options_example = max_segment 1400 ∷ nop ∷ other 8 (1 ∷ 2 ∷ []) ∷ window_scale 7 ∷ []

decode_options-encode_all_example :
    decode_options 16 16 (encode_all options_example (0 ∷ 99 ∷ [])) 9960 0 ≡ decoded 1400 7
decode_options-encode_all_example =
    decode_options-encode_all options_example (list_end 3 99 []) 16 9960 0 (ground arith)
      (omega arith)

decode_options_hangs_example : decode_options 1000 8 (4 ∷ 0 ∷ 1 ∷ []) 9960 0 ≡ unfinished
decode_options_hangs_example =
    decode_options_hangs 1000 8 4 (1 ∷ []) 9960 0 (omega arith) (omega arith)
