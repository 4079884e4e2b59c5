-- ===== src/TinyStack/Protos.antt =====
-- The protocol codes of src/qp_tiny_stack.h, the result of a parse, and reads from a frame.
use qphi.Common.{ℕ, ◌+◌, ◌*◌, Option, none, some, List, [], ◌∷◌, get_elem?, ◌==◌, if◌then◌else◌}

abbrev pub unknown : ℕ
unknown = 0x0000

-- datalink protocols
abbrev pub ethernet_ii : ℕ
ethernet_ii = 0x0001

abbrev pub ethernet_novell : ℕ
ethernet_novell = 0x0002

abbrev pub ethernet_802 : ℕ
ethernet_802 = 0x0003

abbrev pub ethernet_snap : ℕ
ethernet_snap = 0x0004

-- network protocols, 0x31 to 0xff
abbrev pub proto_ip : ℕ
proto_ip = 0x0031

abbrev pub proto_ipv6 : ℕ
proto_ipv6 = 0x0032

abbrev pub proto_arp : ℕ
proto_arp = 0x0033

abbrev pub proto_rarp : ℕ
proto_rarp = 0x0034

abbrev pub proto_ipx : ℕ
proto_ipx = 0x0035

abbrev pub proto_novell_ipx : ℕ
proto_novell_ipx = 0x0036

abbrev pub proto_snmp : ℕ
proto_snmp = 0x0037

abbrev pub proto_ppp : ℕ
proto_ppp = 0x0038

abbrev pub proto_gsmp : ℕ
proto_gsmp = 0x0039

abbrev pub proto_aarp : ℕ
proto_aarp = 0x003a

abbrev pub proto_esps : ℕ
proto_esps = 0x003b

abbrev pub proto_s_mpls : ℕ
proto_s_mpls = 0x003c

abbrev pub proto_g_mpls : ℕ
proto_g_mpls = 0x003d

abbrev pub proto_d_pppoe : ℕ
proto_d_pppoe = 0x003e

abbrev pub proto_s_pppoe : ℕ
proto_s_pppoe = 0x003f

abbrev pub proto_lwapp : ℕ
proto_lwapp = 0x0040

abbrev pub proto_lldp : ℕ
proto_lldp = 0x0041

abbrev pub proto_eapol : ℕ
proto_eapol = 0x0042

abbrev pub proto_lookback : ℕ
proto_lookback = 0x0043

abbrev pub proto_vlan1 : ℕ
proto_vlan1 = 0x0044

abbrev pub proto_vlan2 : ℕ
proto_vlan2 = 0x0045

-- transmit protocols, from 0x0100
abbrev pub proto_icmp : ℕ
proto_icmp = 0x0100

abbrev pub proto_igmp : ℕ
proto_igmp = 0x0101

abbrev pub proto_tcp : ℕ
proto_tcp = 0x0102

abbrev pub proto_udp : ℕ
proto_udp = 0x0103

abbrev pub proto_ggp : ℕ
proto_ggp = 0x0104

abbrev pub proto_ipencap : ℕ
proto_ipencap = 0x0105

abbrev pub proto_st : ℕ
proto_st = 0x0106

abbrev pub proto_egp : ℕ
proto_egp = 0x0107

abbrev pub proto_igp : ℕ
proto_igp = 0x0108

abbrev pub proto_pup : ℕ
proto_pup = 0x0109

-- QP_SUCCESS and QP_ERROR
pub data Status : Type 0 where
  success error : Status

-- `qp_stack_frame_result_t`; the two unions of address pointers are the pointers `src` and `dst`.
pub record FrameResult : Type 0 where
  pub l2_type : ℕ
  pub l2_offset : ℕ
  pub l3_type : ℕ
  pub l3_offset : ℕ
  pub l4_type : ℕ
  pub l4_offset : ℕ
  pub data_offset : ℕ
  pub sport : ℕ
  pub dport : ℕ
  pub smac : Option ℕ
  pub dmac : Option ℕ
  pub src : Option ℕ
  pub dst : Option ℕ

-- `memset(result, 0, sizeof(qp_stack_frame_result_t))`
abbrev pub zeroed : FrameResult
zeroed = record {
  l2_type = 0;
  l2_offset = 0;
  l3_type = 0;
  l3_offset = 0;
  l4_type = 0;
  l4_offset = 0;
  data_offset = 0;
  sport = 0;
  dport = 0;
  smac = none;
  dmac = none;
  src = none;
  dst = none;
}

abbrev pub Frame : Type 0
Frame = List ℕ

-- A computation that reads the frame; `none` is a read past its end.
infixl 5 ◌>>=◌
abbrev pub ◌>>=◌ {ℓ κ} : {A : Type ℓ} {B : Type κ} → Option A → (A → Option B) → Option B
none >>= f = none
some a >>= f = f a

-- a byte, a 16-bit field after `ntohs`, and one as a little-endian host reads it
abbrev pub byte : Frame → ℕ → Option ℕ
byte = get_elem?

unfoldable pub be16 : Frame → ℕ → Option ℕ
be16 frame i = do hi ← byte frame i; lo ← byte frame (i + 1); some (hi * 256 + lo)

unfoldable pub le16 : Frame → ℕ → Option ℕ
le16 frame i = do lo ← byte frame i; hi ← byte frame (i + 1); some (hi * 256 + lo)

-- a `switch` whose cases return
abbrev pub switch : List (ℕ × ℕ) → ℕ → ℕ → ℕ
switch [] default n = default
switch ((c, v) ∷ cases) default n = if n == c then v else switch cases default n
