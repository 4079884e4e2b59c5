-- ===== src/TinyStack/Classify.antt =====
-- What the parser reports for the common frames, and for those that it cuts short.
use qphi.Common.{ℕ, ◌+◌, ◌≤◌, ◌<◌, ◌≡◌, some, arith, dec_lt, refl}
use qphi.TinyStack.Protos.{
  unknown, ethernet_ii, proto_ip, proto_ipv6, proto_tcp, proto_udp, success, FrameResult, zeroed,
  Frame, byte, be16, le16,
}
use qphi.TinyStack.Datalink.{datalink_parse, datalink_ethernet_ii, datalink_get_type, dlt_en10mb}
use qphi.TinyStack.Network.{network_parse, network_ipv4, network_ipv6, network_get_type}
use qphi.TinyStack.Transmit.{transmit_parse, transmit_tcp, transmit_udp}
use qphi.TinyStack.Parse.{parse_layer, parse_loop, clamp_level, parse}

clamp_level-of_ge : (level : ℕ) → 3 ≤ level → clamp_level level ≡ 3
unfolding clamp_level
clamp_level-of_ge level h = ground arith

clamp_level-two : clamp_level 2 ≡ 2
unfolding clamp_level
clamp_level-two = refl

-- the result for an IPv4 packet in an Ethernet II frame, before the transmit layer
abbrev pub ipv4_result : FrameResult
ipv4_result = record zeroed {
  l2_type = ethernet_ii;
  l3_type = proto_ip;
  l3_offset = 14;
  l4_offset = 34;
  smac = some 6;
  dmac = some 0;
  src = some 26;
  dst = some 30;
  data_offset = 34;
}

-- TCP or UDP: the protocol byte, the code, and where the data start behind the header at 34
pub data Transport : Type 0 where
  tcp udp : Transport

abbrev pub proto_byte : Transport → ℕ
proto_byte tcp = 0x06
proto_byte udp = 0x11

abbrev pub proto_code : Transport → ℕ
proto_code tcp = proto_tcp
proto_code udp = proto_udp

abbrev pub data_start : Transport → ℕ
data_start tcp = 54
data_start udp = 42

-- In an Ethernet II frame with an IPv4 packet that carries TCP or UDP, all of whose headers lie in
-- the first `len` bytes, a parse up to the transmit layer succeeds. It reports the two protocols,
-- the addresses at 6, 0, 26 and 30, the transmit header at 34, its two ports as a little-endian host
-- reads them, and the data behind the fixed header of 20 or 8 bytes.
pub parse-transmit :
    (proto : Transport) (frame : Frame) (len level : ℕ) (old : FrameResult) (sport dport : ℕ)
    → 3 ≤ level
    → be16 frame 12 ≡ some 0x0800
    → byte frame 23 ≡ some (proto_byte proto)
    → le16 frame 34 ≡ some sport
    → le16 frame 36 ≡ some dport
    → data_start proto ≤ len
    → parse (some frame) len dlt_en10mb (some old) level
      ≡ some (
        success,
        some (record ipv4_result {
          l4_type = proto_code proto;
          data_offset = data_start proto;
          sport = sport;
          dport = dport;
        }),
      )
unfolding parse parse_loop parse_layer datalink_parse datalink_ethernet_ii datalink_get_type
    network_parse network_ipv4 network_get_type transmit_parse transmit_tcp transmit_udp
parse-transmit tcp frame len level old sport dport deep type proto from to h =
    rw (clamp_level-of_ge level deep, type) (ground (arith, type, proto, from, to))
parse-transmit udp frame len level old sport dport deep type proto from to h =
    rw (clamp_level-of_ge level deep, type) (ground (arith, type, proto, from, to))

-- When the TCP or UDP header of such a packet ends behind `len`, but its IPv4 header does not, the
-- parse up to the transmit layer succeeds all the same: it reports no transmit protocol and no
-- ports, and a data offset behind `len`.
pub parse-truncated :
    (proto : Transport) (frame : Frame) (len level : ℕ) (old : FrameResult)
    → 3 ≤ level
    → be16 frame 12 ≡ some 0x0800
    → byte frame 23 ≡ some (proto_byte proto)
    → 34 ≤ len
    → len < data_start proto
    → (r : FrameResult) × (parse (some frame) len dlt_en10mb (some old) level
        ≡ some (success, some r))
      × (r.l4_type ≡ unknown)
      × (r.sport ≡ 0)
      × (r.dport ≡ 0)
      × (len < r.data_offset)
unfolding parse parse_loop parse_layer datalink_parse datalink_ethernet_ii datalink_get_type
    network_parse network_ipv4 network_get_type transmit_parse transmit_tcp transmit_udp
parse-truncated tcp frame len level old deep type proto h short = (
  record ipv4_result { data_offset = 54 },
  rw (clamp_level-of_ge level deep, type) (ground (arith, type, proto)),
  refl,
  refl,
  refl,
  short,
)
parse-truncated udp frame len level old deep type proto h short = (
  record ipv4_result { data_offset = 42 },
  rw (clamp_level-of_ge level deep, type) (ground (arith, type, proto)),
  refl,
  refl,
  refl,
  short,
)

-- The length that the IPv6 layer asks for is that of an IPv4 header. For every frame of Ethernet
-- type 0x86dd with 34 to 53 bytes, a parse up to the network layer succeeds and reports a
-- destination address whose 16 bytes end behind `len`.
pub parse-ipv6_dst :
    (frame : Frame) (len level : ℕ) (old : FrameResult)
    → 2 ≤ level
    → be16 frame 12 ≡ some 0x86dd
    → 34 ≤ len
    → len < 54
    → (r : FrameResult) × (at : ℕ) × (parse (some frame) len dlt_en10mb (some old) level
        ≡ some (success, some r))
      × (r.l3_type ≡ proto_ipv6)
      × (r.dst ≡ some at)
      × (len < at + 16)
unfolding parse parse_loop parse_layer datalink_parse datalink_ethernet_ii datalink_get_type
    network_parse network_ipv6 transmit_parse
parse-ipv6_dst frame len level old deep type h short = (
  record ipv4_result { l3_type = proto_ipv6; src = some 22; dst = some 38 },
  38,
  elim (dec_lt level 3) [
    | yes two ↦
        let e : level ≡ 2 = omega arith in rw (e, clamp_level-two, type) (ground (arith, type))
    | no three ↦ rw (clamp_level-of_ge level (omega arith), type) (ground (arith, type))
  ],
  refl,
  refl,
  omega arith,
)
