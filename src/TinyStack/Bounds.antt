-- ===== src/TinyStack/Bounds.antt =====
-- The parser reads inside the frame, and what it reports lies inside the first `len` bytes.
use qphi.Common.{
  ℕ, zero, suc, ◌≤◌, ◌<◌, ◌≡◌, ◌≢◌, ◌⊎◌, inl, inr, none, some, arith, length, refl, get_elem?,
  get_elem?-of_ge, Returns, Returns-some,
}
use qphi.TinyStack.Protos.{unknown, Status, FrameResult, zeroed, Frame, be16}
use qphi.TinyStack.Datalink.{datalink_parse, dlt_en10mb}
use qphi.TinyStack.Network.{network_parse}
use qphi.TinyStack.Transmit.{transmit_parse}
use qphi.TinyStack.Parse.{parse_layer, parse_loop, clamp_level, parse}
use qphi.TinyStack.Layers.{
  Linked, Routed, InFrame, datalink-Linked, network-Routed, transmit-InFrame,
}

pub clamp_level-cases :
    (level : ℕ) → (clamp_level level ≡ 1) ⊎ ((clamp_level level ≡ 2) ⊎ (clamp_level level ≡ 3))
unfolding clamp_level
clamp_level-cases level = ground arith

-- What a run of the loop must meet, whatever its status.
abbrev Framed : ℕ → Status × FrameResult → Type 0
Framed len (s, r) = InFrame len r

module _ (frame : Frame) (len link : ℕ) (fits : len ≤ length frame) where
  transmit_loop-InFrame :
      (level : ℕ) (t : ℕ) (r : FrameResult)
      → Routed len t r
      → t ≢ unknown
      → Returns (Framed len) (parse_loop 1 2 level frame len link r)
  unfolding parse_loop parse_layer
  transmit_loop-InFrame level t r h ne =
      let (a, e, i) =
        Returns-some (λ (t, r'). InFrame len r') (transmit_parse frame len r)
          (transmit-InFrame frame len fits r h.mac (ground (arith, h)) (ground (arith, h))
            (ground (arith, h))) in
      ground (arith, e, i)

  network_loop-InFrame :
      (rounds level : ℕ) (t : ℕ) (r : FrameResult)
      → rounds ≤ 1
      → Linked len t r
      → Returns (Framed len) (parse_loop (suc rounds) 1 level frame len link r)
  unfolding parse_loop parse_layer
  network_loop-InFrame zero level t r few h =
      let (a, e, i) =
        Returns-some (λ (t, r'). Routed len t r') (network_parse frame len r)
          (network-Routed frame len fits r h.near h.mac h.no_ports) in
      ground (arith, e, i)
  network_loop-InFrame (suc zero) level t r few h =
      let (a, e, i) =
        Returns-some (λ (t, r'). Routed len t r') (network_parse frame len r)
          (network-Routed frame len fits r h.near h.mac h.no_ports) in
      ground (arith, e, i, transmit_loop-InFrame level a.0 a.1)
  network_loop-InFrame (suc (suc n)) level t r few h = absurd (omega arith)

  linked :
      16 ≤ length frame
      → (a : ℕ × FrameResult) × (datalink_parse frame len link zeroed ≡ some a) × Linked len a.0 a.1
  linked room =
      Returns-some (λ (t, r'). Linked len t r') (datalink_parse frame len link zeroed)
        (datalink-Linked frame len fits link zeroed room refl refl (inl (refl, refl)) refl)

  loop-InFrame :
      (rounds level : ℕ)
      → 16 ≤ length frame
      → rounds ≤ 2
      → Returns (Framed len) (parse_loop (suc rounds) 0 level frame len link zeroed)
  unfolding parse_loop parse_layer
  loop-InFrame zero level room few = let (a, e, i) = linked room in ground (arith, e, i)
  loop-InFrame (suc rounds) level room few =
      let (a, e, i) = linked room in
      ground (arith, e, i, network_loop-InFrame rounds level a.0 a.1 (omega arith))

-- For every frame of at least 16 bytes whose first `len` bytes are there, every link type and every
-- level, `qp_stack_parse` reads inside the frame and returns. The MAC addresses that it reports lie
-- in the first `len` bytes, and where it reports a transmit protocol, so does everything up to the
-- data: the transmit header stands behind the network header and ends by `len`.
pub parse-InFrame :
    (frame : Frame) (len link level : ℕ) (old : FrameResult)
    → len ≤ length frame
    → 16 ≤ length frame
    → (s : Status) × (r : FrameResult) × (parse (some frame) len link (some old) level
        ≡ some (s, some r))
      × InFrame len r
unfolding parse
parse-InFrame frame len link level old fits room =
    let level' = clamp_level level in
    let (a, e, i) =
      Returns-some (Framed len) (parse_loop level' 0 level' frame len link zeroed)
        (elim (clamp_level-cases level) [
          | inl one ↦ rw one (loop-InFrame frame len link fits 0 1 room (omega arith))
          | inr (inl two) ↦ rw two (loop-InFrame frame len link fits 1 2 room (omega arith))
          | inr (inr three) ↦ rw three (loop-InFrame frame len link fits 2 3 room (omega arith))
        ]) in
    (a.0, a.1, ground (arith, e), i)

-- The type field of an Ethernet frame is read before its length is looked at: for every frame of
-- fewer than 14 bytes, whatever `len` says, the parse reads past its end.
pub parse-short_frame :
    (frame : Frame) (len level : ℕ) (old : FrameResult)
    → length frame < 14
    → parse (some frame) len dlt_en10mb (some old) level ≡ none
unfolding parse parse_loop parse_layer datalink_parse be16
parse-short_frame frame len level old short = elim (clamp_level-cases level) [
  | inl one ↦ ground (arith, one, out)
  | inr (inl two) ↦ ground (arith, two, out)
  | inr (inr three) ↦ ground (arith, three, out)
]
  where
    out : get_elem? frame 13 ≡ none
    out = get_elem?-of_ge frame 13 (omega arith)
