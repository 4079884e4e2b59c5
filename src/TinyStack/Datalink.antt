-- ===== src/TinyStack/Datalink.antt =====
-- The datalink layer: src/qp_tiny_stack/qp_stack_ethernetII.c, qp_stack_ethernet802.c,
-- qp_stack_ethernetNovell.c, qp_stack_ethernetSNAP.c, and `qp_stack_datalink_parse`.
use qphi.Common.{ℕ, ◌+◌, ◌&&◌, Option, some, List, [], ◌∷◌, ltb, leb, ◌==◌, if◌then◌else◌, u16, u32}
use qphi.TinyStack.Protos.{
  unknown, ethernet_ii, ethernet_novell, ethernet_802, ethernet_snap, proto_ip, proto_ipv6,
  proto_arp, proto_rarp, proto_ipx, proto_novell_ipx, proto_snmp, proto_ppp, proto_gsmp, proto_aarp,
  proto_esps, proto_s_mpls, proto_g_mpls, proto_d_pppoe, proto_s_pppoe, proto_lwapp, proto_lldp,
  proto_eapol, proto_lookback, proto_vlan1, proto_vlan2, FrameResult, Frame, ◌>>=◌, be16, switch,
}

-- the cases that return a protocol; the other cases of the source break to the unknown protocol
abbrev pub ether_types : List (ℕ × ℕ)
ether_types =
    (0x0800, proto_ip)
    ∷ (0x0806, proto_arp)
    ∷ (0x8035, proto_rarp)
    ∷ (0x8037, proto_novell_ipx)
    ∷ (0x80f3, proto_aarp)
    ∷ (0x8100, proto_esps)
    ∷ (0x8137, proto_ipx)
    ∷ (0x814c, proto_snmp)
    ∷ (0x86dd, proto_ipv6)
    ∷ (0x880b, proto_ppp)
    ∷ (0x880c, proto_gsmp)
    ∷ (0x8847, proto_s_mpls)
    ∷ (0x8848, proto_g_mpls)
    ∷ (0x8863, proto_d_pppoe)
    ∷ (0x8864, proto_s_pppoe)
    ∷ (0x88bb, proto_lwapp)
    ∷ (0x88cc, proto_lldp)
    ∷ (0x8e88, proto_eapol)
    ∷ (0x9000, proto_lookback)
    ∷ (0x9100, proto_vlan1)
    ∷ (0x9200, proto_vlan2)
    ∷ []

unfoldable pub datalink_get_type : ℕ → ℕ
datalink_get_type type =
    if leb 0x0101 type && leb type 0x01ff
    then unknown
    else if leb 0x0660 type && leb type 0x0661
    then unknown
    else switch ether_types unknown type

-- Each layer stores the offset of the next one first, and stops if the frame is too short for it.
-- The sizes are those of the packed headers: 14 bytes, 17 with the LLC bytes, 22 with SNAP.
unfoldable pub datalink_ethernet_ii : Frame → ℕ → FrameResult → Option (ℕ × FrameResult)
datalink_ethernet_ii frame len result =
    let r = record result { l3_offset = u32 (result.l2_offset + 14) } in
    if ltb len r.l3_offset then some (unknown, r) else do
      type ← be16 frame (r.l2_offset + 12)
      some (
        u16 ethernet_ii,
        record r {
          smac = some (r.l2_offset + 6);
          dmac = some r.l2_offset;
          l2_type = ethernet_ii;
          l3_type = datalink_get_type type;
          data_offset = r.l3_offset;
        },
      )

unfoldable pub datalink_ethernet_novell : Frame → ℕ → FrameResult → Option (ℕ × FrameResult)
datalink_ethernet_novell frame len result =
    let r = record result { l3_offset = u32 (result.l2_offset + 14) } in
    if ltb len r.l3_offset
    then some (unknown, r)
    else some (
      u16 ethernet_novell,
      record r {
        smac = some (r.l2_offset + 6);
        dmac = some r.l2_offset;
        l2_type = ethernet_novell;
        l3_type = proto_ipx;
        data_offset = r.l3_offset;
      },
    )

-- The type that the length field would give is read, and replaced by the unknown one.
unfoldable pub datalink_ethernet_802 : Frame → ℕ → FrameResult → Option (ℕ × FrameResult)
datalink_ethernet_802 frame len result =
    let r = record result { l3_offset = u32 (result.l2_offset + 17) } in
    if ltb len r.l3_offset then some (unknown, r) else do
      type ← be16 frame (r.l2_offset + 12)
      some (
        u16 ethernet_802,
        record r {
          smac = some (r.l2_offset + 6);
          dmac = some r.l2_offset;
          l2_type = ethernet_802;
          l3_type = unknown;
          data_offset = r.l3_offset;
        },
      )

unfoldable pub datalink_ethernet_snap : Frame → ℕ → FrameResult → Option (ℕ × FrameResult)
datalink_ethernet_snap frame len result =
    let r = record result { l3_offset = u32 (result.l2_offset + 22) } in
    if ltb len r.l3_offset then some (unknown, r) else do
      type ← be16 frame (r.l2_offset + 20)
      some (
        u16 ethernet_snap,
        record r {
          smac = some (r.l2_offset + 6);
          dmac = some r.l2_offset;
          l2_type = ethernet_snap;
          l3_type = datalink_get_type type;
          data_offset = r.l3_offset;
        },
      )

abbrev pub dlt_en10mb : ℕ
dlt_en10mb = 1

-- The type and identifier fields are read at the start of the frame, whatever `len` is. Every other
-- link type breaks out of the switch.
unfoldable pub datalink_parse : Frame → ℕ → ℕ → FrameResult → Option (ℕ × FrameResult)
datalink_parse frame len link result =
    if link == dlt_en10mb
    then (do
      type_n_len ← be16 frame 12
      if leb type_n_len 0x05dc
          then (do
            identify ← be16 frame 14
            if identify == 0xffff
                then datalink_ethernet_novell frame len
                    (record result { l2_type = ethernet_novell })
                else if identify == 0xaaaa
                then datalink_ethernet_snap frame len (record result { l2_type = ethernet_snap })
                else datalink_ethernet_802 frame len (record result { l2_type = ethernet_802 }))
          else datalink_ethernet_ii frame len result)
    else some (u16 result.l2_type, result)
