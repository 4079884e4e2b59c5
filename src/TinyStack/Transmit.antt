-- ===== src/TinyStack/Transmit.antt =====
-- The transmit layer: src/qp_tiny_stack/qp_stack_tcp.c, qp_stack_udp.c, and
-- `qp_stack_transmit_parse`. The ports are stored as the host reads them; the host is little-endian.
use qphi.Common.{ℕ, ◌+◌, Option, some, ltb, ◌==◌, if◌then◌else◌, u16, u32}
use qphi.TinyStack.Protos.{unknown, proto_tcp, proto_udp, FrameResult, Frame, ◌>>=◌, le16}

unfoldable pub transmit_tcp : Frame → ℕ → FrameResult → Option (ℕ × FrameResult)
transmit_tcp frame len result =
    let r = record result { data_offset = u32 (result.l4_offset + 20) } in
    if ltb len r.data_offset then some (unknown, record r { l4_type = unknown }) else do
      sport ← le16 frame r.l4_offset
      dport ← le16 frame (r.l4_offset + 2)
      some (u16 r.l4_type, record r { sport = sport; dport = dport })

unfoldable pub transmit_udp : Frame → ℕ → FrameResult → Option (ℕ × FrameResult)
transmit_udp frame len result =
    let r = record result { data_offset = u32 (result.l4_offset + 8) } in
    if ltb len r.data_offset then some (unknown, record r { l4_type = unknown }) else do
      sport ← le16 frame r.l4_offset
      dport ← le16 frame (r.l4_offset + 2)
      some (u16 r.l4_type, record r { sport = sport; dport = dport })

unfoldable pub transmit_parse : Frame → ℕ → FrameResult → Option (ℕ × FrameResult)
transmit_parse frame len result =
    if result.l4_type == proto_tcp
    then transmit_tcp frame len result
    else if result.l4_type == proto_udp
    then transmit_udp frame len result
    else some (unknown, record result { l4_type = unknown })
