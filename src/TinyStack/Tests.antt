-- ===== src/TinyStack/Tests.antt =====
-- The parser on concrete frames, and its theorems at them.
use qphi.Common.{ℕ, ◌+◌, ◌<◌, ◌≡◌, none, some, List, [], ◌∷◌, arith, refl}
use qphi.TinyStack.Protos.{
  unknown, Status, success, FrameResult, zeroed, Frame, be16, le16, proto_ipv6, proto_tcp,
}
use qphi.TinyStack.Datalink.{dlt_en10mb}
use qphi.TinyStack.Parse.{parse}
use qphi.TinyStack.Layers.{InFrame}
use qphi.TinyStack.Bounds.{parse-InFrame, parse-short_frame}
use qphi.TinyStack.Classify.{ipv4_result, tcp, udp, parse-transmit, parse-truncated, parse-ipv6_dst}

-- an Ethernet II header with the type `hi`, `lo`, and an IPv4 header with the protocol `proto`
abbrev packet : ℕ → ℕ → ℕ → List ℕ → Frame
packet hi lo proto rest =
    1 ∷ 2 ∷ 3 ∷ 4 ∷ 5 ∷ 6 ∷ 7 ∷ 8 ∷ 9 ∷ 10 ∷ 11 ∷ 12 ∷ hi ∷ lo ∷ 0x45 ∷ 0 ∷ 0 ∷ 40 ∷ 0 ∷ 0 ∷ 0 ∷ 0
    ∷ 64 ∷ proto ∷ 0 ∷ 0 ∷ 10 ∷ 0 ∷ 0 ∷ 1 ∷ 10 ∷ 0 ∷ 0 ∷ 2 ∷ rest

-- ports 80 and 1024 in network order, and the rest of the TCP header
abbrev tcp_frame : Frame
tcp_frame =
    packet 8 0 6
      (0 ∷ 80 ∷ 4 ∷ 0 ∷ 0 ∷ 0 ∷ 0 ∷ 1 ∷ 0 ∷ 0 ∷ 0 ∷ 2 ∷ 0x50 ∷ 0x10 ∷ 1 ∷ 0 ∷ 0 ∷ 0 ∷ 0 ∷ 0 ∷ [])

parse-transmit_example :
    parse (some tcp_frame) 54 dlt_en10mb (some zeroed) 3
    ≡ some (
      success,
      some
          (record ipv4_result { l4_type = proto_tcp; data_offset = 54; sport = 0x5000; dport = 4 }),
    )
unfolding be16 le16
parse-transmit_example =
    parse-transmit tcp tcp_frame 54 3 zeroed 0x5000 4 (omega arith) refl refl refl refl
      (omega arith)

parse-truncated_example :
    (r : FrameResult) × (parse (some (packet 8 0 0x11 [])) 34 dlt_en10mb (some zeroed) 3
      ≡ some (success, some r))
    × (r.l4_type ≡ unknown)
    × (r.sport ≡ 0)
    × (r.dport ≡ 0)
    × (34 < r.data_offset)
unfolding be16
parse-truncated_example =
    parse-truncated udp (packet 8 0 0x11 []) 34 3 zeroed (omega arith) refl refl (omega arith)
      (omega arith)

parse-ipv6_dst_example :
    (r : FrameResult) × (at : ℕ) × (parse
        (some (packet 0x86 0xdd 0 []))
        34
        dlt_en10mb
        (some zeroed)
        2
      ≡ some (success, some r))
    × (r.l3_type ≡ proto_ipv6)
    × (r.dst ≡ some at)
    × (34 < at + 16)
unfolding be16
parse-ipv6_dst_example =
    parse-ipv6_dst (packet 0x86 0xdd 0 []) 34 2 zeroed (omega arith) refl (omega arith)
      (omega arith)

parse-InFrame_example :
    (s : Status) × (r : FrameResult) × (parse (some tcp_frame) 54 dlt_en10mb (some zeroed) 3
      ≡ some (s, some r))
    × InFrame 54 r
parse-InFrame_example = parse-InFrame tcp_frame 54 dlt_en10mb 3 zeroed (omega arith) (omega arith)

parse-short_frame_example : parse (some (1 ∷ 2 ∷ 3 ∷ [])) 3 dlt_en10mb (some zeroed) 1 ≡ none
parse-short_frame_example = parse-short_frame (1 ∷ 2 ∷ 3 ∷ []) 3 1 zeroed (omega arith)
