-- ===== src/TinyStack/Layers.antt =====
-- What each layer of the parser leaves in the result, and that it reads inside the frame.
use qphi.Common.{
  ℕ, ◌+◌, ◌*◌, ◌≤◌, ◌<◌, ◌≡◌, ◌⊎◌, none, some, arith, length, get_elem?-of_lt, Returns, dec_lt,
}
use qphi.TinyStack.Protos.{unknown, FrameResult, Frame, be16, le16}
use qphi.TinyStack.Datalink.{
  datalink_ethernet_ii, datalink_ethernet_novell, datalink_ethernet_802, datalink_ethernet_snap,
  datalink_parse,
}
use qphi.TinyStack.Network.{network_ipv4, network_ipv6, network_parse}
use qphi.TinyStack.Transmit.{transmit_tcp, transmit_udp, transmit_parse}

pub be16_total : (frame : Frame) (i : ℕ) → i + 1 < length frame → (v : ℕ) × (be16 frame i ≡ some v)
unfolding be16
be16_total frame i h =
    let (a, p) = get_elem?-of_lt frame i (omega arith) in
    let (b, q) = get_elem?-of_lt frame (i + 1) h in (a * 256 + b, ground (arith, p, q))

pub le16_total : (frame : Frame) (i : ℕ) → i + 1 < length frame → (v : ℕ) × (le16 frame i ≡ some v)
unfolding le16
le16_total frame i h =
    let (a, p) = get_elem?-of_lt frame i (omega arith) in
    let (b, q) = get_elem?-of_lt frame (i + 1) h in (b * 256 + a, ground (arith, p, q))

-- Both addresses lie in the first `len` bytes, or neither is set.
abbrev pub MacIn : ℕ → FrameResult → Type 0
MacIn len r =
    ((r.smac ≡ none) × (r.dmac ≡ none)) ⊎ ((r.dmac ≡ some 0) × (r.smac ≡ some 6) × (14 ≤ len))

-- The state between the datalink and the network layer.
pub record Linked (len : ℕ) (type : ℕ) (r : FrameResult) : Type 0 where
  pub start : r.l2_offset ≡ 0
  pub near : r.l3_offset ≤ 22
  pub mac : MacIn len r
  pub known : (type ≡ unknown) ⊎ (r.l3_offset ≤ len)
  pub no_ports : r.l4_type ≡ unknown

module _ (frame : Frame) (len : ℕ) (fits : len ≤ length frame) where
  module _ (r : FrameResult) (start : r.l2_offset ≡ 0) (fresh : MacIn len r)
      (quiet : r.l4_type ≡ unknown) where
    ethernet_ii-Linked : Returns (λ (t, r'). Linked len t r') (datalink_ethernet_ii frame len r)
    unfolding datalink_ethernet_ii
    ethernet_ii-Linked = elim (dec_lt len 14) [
      | yes short ↦ ground arith
      | no long ↦
          let (v, e) = be16_total frame (r.l2_offset + 12) (omega arith) in ground (arith, e)
    ]

    novell-Linked : Returns (λ (t, r'). Linked len t r') (datalink_ethernet_novell frame len r)
    unfolding datalink_ethernet_novell
    novell-Linked = ground arith

    ethernet_802-Linked : Returns (λ (t, r'). Linked len t r') (datalink_ethernet_802 frame len r)
    unfolding datalink_ethernet_802
    ethernet_802-Linked = elim (dec_lt len 17) [
      | yes short ↦ ground arith
      | no long ↦
          let (v, e) = be16_total frame (r.l2_offset + 12) (omega arith) in ground (arith, e)
    ]

    snap-Linked : Returns (λ (t, r'). Linked len t r') (datalink_ethernet_snap frame len r)
    unfolding datalink_ethernet_snap
    snap-Linked = elim (dec_lt len 22) [
      | yes short ↦ ground arith
      | no long ↦
          let (v, e) = be16_total frame (r.l2_offset + 20) (omega arith) in ground (arith, e)
    ]

  -- The two fields at the start of the frame are read before any test of `len`.
  pub datalink-Linked :
      (link : ℕ) (r : FrameResult)
      → 16 ≤ length frame
      → r.l2_offset ≡ 0
      → r.l3_offset ≡ 0
      → MacIn len r
      → r.l4_type ≡ unknown
      → Returns (λ (t, r'). Linked len t r') (datalink_parse frame len link r)
  unfolding datalink_parse
  datalink-Linked link r room start unset fresh quiet =
      let (type, p) = be16_total frame 12 (omega arith) in
      let (identify, q) = be16_total frame 14 (omega arith) in
      ground (
        arith,
        p,
        q,
        ethernet_ii-Linked r start fresh quiet,
        novell-Linked (record r { l2_type = 2 }) start fresh quiet,
        ethernet_802-Linked (record r { l2_type = 3 }) start fresh quiet,
        snap-Linked (record r { l2_type = 4 }) start fresh quiet,
      )

-- The state between the network and the transmit layer: the addresses of an IPv4 header lie in the
-- first `len` bytes.
pub record Routed (len : ℕ) (type : ℕ) (r : FrameResult) : Type 0 where
  pub mac : MacIn len r
  pub known :
      ((type ≡ unknown) × (r.l4_type ≡ unknown))
      ⊎ ((r.l3_offset ≤ 22)
          × (r.l4_offset ≡ r.l3_offset + 20)
          × (r.data_offset ≡ r.l4_offset)
          × (r.l4_offset ≤ len))

-- The state at the end: a known transmit protocol has its whole header in the first `len` bytes.
pub record InFrame (len : ℕ) (r : FrameResult) : Type 0 where
  pub mac : MacIn len r
  pub known :
      (r.l4_type ≡ unknown)
      ⊎ ((r.l3_offset < r.l4_offset) × (r.l4_offset ≤ r.data_offset) × (r.data_offset ≤ len))

module _ (frame : Frame) (len : ℕ) (fits : len ≤ length frame) where
  module _ (r : FrameResult) (near : r.l3_offset ≤ 22) (mac : MacIn len r)
      (quiet : r.l4_type ≡ unknown) where
    ipv4-Routed : Returns (λ (t, r'). Routed len t r') (network_ipv4 frame len r)
    unfolding network_ipv4
    ipv4-Routed = elim (dec_lt len (r.l3_offset + 20)) [
      | yes short ↦ ground arith
      | no long ↦
          let (v, e) = get_elem?-of_lt frame (r.l3_offset + 9) (omega arith) in ground (arith, e)
    ]

    ipv6-Routed : Returns (λ (t, r'). Routed len t r') (network_ipv6 frame len r)
    unfolding network_ipv6
    ipv6-Routed = ground arith

    pub network-Routed : Returns (λ (t, r'). Routed len t r') (network_parse frame len r)
    unfolding network_parse
    network-Routed = ground (arith, ipv4-Routed, ipv6-Routed)

  module _ (r : FrameResult) (mac : MacIn len r) (near : r.l3_offset ≤ 22)
      (after : r.l4_offset ≡ r.l3_offset + 20) (inside : r.l4_offset ≤ len) where
    tcp-InFrame : Returns (λ (t, r'). InFrame len r') (transmit_tcp frame len r)
    unfolding transmit_tcp
    tcp-InFrame = elim (dec_lt len (r.l4_offset + 20)) [
      | yes short ↦ ground arith
      | no long ↦
          let (v, e) = le16_total frame r.l4_offset (omega arith) in
          let (w, d) = le16_total frame (r.l4_offset + 2) (omega arith) in ground (arith, e, d)
    ]

    udp-InFrame : Returns (λ (t, r'). InFrame len r') (transmit_udp frame len r)
    unfolding transmit_udp
    udp-InFrame = elim (dec_lt len (r.l4_offset + 8)) [
      | yes short ↦ ground arith
      | no long ↦
          let (v, e) = le16_total frame r.l4_offset (omega arith) in
          let (w, d) = le16_total frame (r.l4_offset + 2) (omega arith) in ground (arith, e, d)
    ]

    pub transmit-InFrame : Returns (λ (t, r'). InFrame len r') (transmit_parse frame len r)
    unfolding transmit_parse
    transmit-InFrame = ground (arith, tcp-InFrame, udp-InFrame)
