-- ===== src/TinyStack/Parse.antt =====
-- `qp_stack_parse` of src/qp_tiny_stack.c: the layers in order, up to `level`.
use qphi.Common.{ℕ, zero, suc, ◌+◌, ◌-◌, Option, none, some, ltb, ◌==◌, if◌then◌else◌}
use qphi.TinyStack.Protos.{unknown, Status, success, error, FrameResult, zeroed, Frame, ◌>>=◌}
use qphi.TinyStack.Datalink.{datalink_parse}
use qphi.TinyStack.Network.{network_parse}
use qphi.TinyStack.Transmit.{transmit_parse}

abbrev pub level_datalink : ℕ
level_datalink = 1

abbrev pub level_transmit : ℕ
level_transmit = 3

-- the call that case `i` of the switch makes
unfoldable pub parse_layer : ℕ → Frame → ℕ → ℕ → FrameResult → Option (ℕ × FrameResult)
parse_layer zero frame len link result = datalink_parse frame len link result
parse_layer (suc zero) frame len link result = network_parse frame len result
parse_layer (suc (suc i)) frame len link result = transmit_parse frame len result

-- the loop at `i`, with `rounds = level - i` still to go
unfoldable pub parse_loop :
    ℕ → (i level : ℕ) → Frame → ℕ → ℕ → FrameResult → Option (Status × FrameResult)
parse_loop zero i level frame len link result = some (success, result)
parse_loop (suc rounds) i level frame len link result = do
  (type, r) ← parse_layer i frame len link result
  let rest = parse_loop rounds (i + 1) level frame len link r
  if type == unknown then some (if i == level - 1 then success else error, r) else rest

unfoldable pub clamp_level : ℕ → ℕ
clamp_level level =
    let l = if ltb level_transmit level then level_transmit else level in
    if ltb l level_datalink then level_datalink else l

-- `none` is a fault; the result that `qp_stack_parse` fills is NULL or the caller's struct.
unfoldable pub parse :
    Option Frame → ℕ → ℕ → Option FrameResult → ℕ → Option (Status × Option FrameResult)
parse none len link result level = some (error, result)
parse (some frame) len link none level = some (error, none)
parse (some frame) len link (some result) level = do
  (s, r) ← parse_loop (clamp_level level) 0 (clamp_level level) frame len link zeroed
  some (s, some r)
