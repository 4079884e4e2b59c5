-- ===== src/TinyStack/Network.antt =====
-- The network layer: src/qp_tiny_stack/qp_stack_ipv4.c, qp_stack_ipv6.c, and
-- `qp_stack_network_parse`.
use qphi.Common.{ℕ, ◌+◌, Option, some, List, [], ◌∷◌, ltb, ◌==◌, if◌then◌else◌, u16, u32}
use qphi.TinyStack.Protos.{
  unknown, proto_ip, proto_ipv6, proto_icmp, proto_igmp, proto_tcp, proto_udp, proto_ggp,
  proto_ipencap, proto_st, proto_egp, proto_igp, proto_pup, FrameResult, Frame, ◌>>=◌, byte, switch,
}

abbrev pub ip_protos : List (ℕ × ℕ)
ip_protos =
    (0x01, proto_icmp)
    ∷ (0x02, proto_igmp)
    ∷ (0x03, proto_ggp)
    ∷ (0x04, proto_ipencap)
    ∷ (0x05, proto_st)
    ∷ (0x06, proto_tcp)
    ∷ (0x08, proto_egp)
    ∷ (0x09, proto_igp)
    ∷ (0x0c, proto_pup)
    ∷ (0x11, proto_udp)
    ∷ []

unfoldable pub network_get_type : ℕ → ℕ
network_get_type type = switch ip_protos unknown type

-- The header counts 20 bytes; the protocol stands at 9, the addresses at 12 and 16.
unfoldable pub network_ipv4 : Frame → ℕ → FrameResult → Option (ℕ × FrameResult)
network_ipv4 frame len result =
    let r = record result { l4_offset = u32 (result.l3_offset + 20) } in
    if ltb len r.l4_offset then some (unknown, record r { l3_type = unknown }) else do
      proto ← byte frame (r.l3_offset + 9)
      some (
        u16 r.l3_type,
        record r {
          l4_type = network_get_type proto;
          src = some (r.l3_offset + 12);
          dst = some (r.l3_offset + 16);
          data_offset = r.l4_offset;
        },
      )

-- The source takes the size of the IPv4 header, 20, here too. The addresses stand at 8 and 24.
unfoldable pub network_ipv6 : Frame → ℕ → FrameResult → Option (ℕ × FrameResult)
network_ipv6 frame len result =
    let r = record result { l4_offset = u32 (result.l3_offset + 20) } in
    if ltb len r.l4_offset
    then some (unknown, record r { l3_type = unknown })
    else some (
      u16 r.l3_type,
      record r {
        l4_type = unknown;
        src = some (r.l3_offset + 8);
        dst = some (r.l3_offset + 24);
        data_offset = r.l4_offset;
      },
    )

unfoldable pub network_parse : Frame → ℕ → FrameResult → Option (ℕ × FrameResult)
network_parse frame len result =
    if result.l3_type == proto_ip
    then network_ipv4 frame len result
    else if result.l3_type == proto_ipv6
    then network_ipv6 frame len result
    else some (unknown, record result { l3_type = unknown })
