-- ===== src/Pool/Session.antt =====
-- A client's calls on one pool, in order, against the stack of free elements.
use qphi.Common.{
  ℕ, ◌-◌, ◌≡◌, ◌&&◌, refl, Option, none, some, List, [], ◌∷◌, has, arith, leb, if◌then◌else◌,
  Bool-cases, inl, inr, ◌∙◌,
}
use qphi.Pool.{Memory, elm_size, Status, success, pool_alloc, pool_free}
use qphi.Pool.Invariant.{Elements, IsPool}
use qphi.Pool.Blocks.{take_block, give_block, alloc_refines, free_refines}

pub data Call : Type 0 where
  take : ℕ → Call
  give : ℕ → Call

pub data Reply : Type 0 where
  block : ℕ → Reply
  done : Status → Reply

unfoldable pub run : ℕ → List Call → Memory → List Reply
run p [] m = []
run p (take size ∷ calls) m = let (ptr, m') = pool_alloc p size m in block ptr ∷ run p calls m'
run p (give ptr ∷ calls) m = let (s, m') = pool_free p ptr m in done s ∷ run p calls m'

abbrev pub then_reply : Reply → Option (List Reply) → Option (List Reply)
then_reply r none = none
then_reply r (some replies) = some (r ∷ replies)

-- The replies of the stack, if the client gives back only blocks that it has.
unfoldable pub expect : (esize : ℕ) → List Call → Elements → Option (List Reply)
expect esize [] b = some []
expect esize (take size ∷ calls) b =
    let (ptr, b') = take_block esize size b in then_reply (block ptr) (expect esize calls b')
expect esize (give ptr ∷ calls) b =
    let rest = expect esize calls (give_block ptr b) in
    if leb elm_size ptr && has (ptr - elm_size) b.used then then_reply (done success) rest else none

then_reply-some :
    (r : Reply) (o : Option (List Reply)) (out : List Reply)
    → then_reply r o ≡ some out
    → (rest : List Reply) × (o ≡ some rest) × (out ≡ r ∷ rest)
then_reply-some r none out e = cc
then_reply-some r (some rest) out e = (rest, refl, ground arith)

pub esize-alloc :
    (p size : ℕ) (m : Memory) → ((pool_alloc p size m).1.pool p).esize ≡ (m.pool p).esize
unfolding pool_alloc
esize-alloc p size m = ground arith

pub esize-free : (p ptr : ℕ) (m : Memory) → ((pool_free p ptr m).1.pool p).esize ≡ (m.pool p).esize
unfolding pool_free
esize-free p ptr m = ground arith

-- For every sequence of calls on a pool that holds `b`, in which the client gives back only blocks
-- that it has at that moment, the pool answers each call as the stack of free elements does: no
-- block is handed out twice, the block given back last is handed out first, and NULL comes exactly
-- when the size is too large or the stack is empty.
pub run_refines :
    (calls : List Call) (p esize : ℕ) (m : Memory) (b : Elements) (replies : List Reply)
    → IsPool m p b
    → (m.pool p).esize ≡ esize
    → expect esize calls b ≡ some replies
    → run p calls m ≡ replies
unfolding run expect
run_refines [] p esize m b replies v size_is e = ground arith
run_refines (take size ∷ calls) p esize m b replies v size_is e =
    let (same, after) = alloc_refines m p size b v in
    let (ptr, b') = take_block (m.pool p).esize size b in
    let (rest, e1, e2) =
      then_reply-some (block ptr) (expect esize calls b') replies (rw size_is e) in
    let ih =
      run_refines calls p esize (pool_alloc p size m).1 b' rest after
        (esize-alloc p size m ∙ size_is) e1 in
    ground (arith, same, ih, e2)
run_refines (give ptr ∷ calls) p esize m b replies v size_is e =
    elim (Bool-cases (leb elm_size ptr && has (ptr - elm_size) b.used)) [
      | inl ok ↦
          let (good, after) = free_refines m p ptr b v (ground arith) (ground arith) in
          let (rest, e1, e2) =
            then_reply-some (done success) (expect esize calls (give_block ptr b)) replies
              (rw ok at e) in
          let ih =
            run_refines calls p esize (pool_free p ptr m).1 (give_block ptr b) rest after
              (esize-free p ptr m ∙ size_is) e1 in
          ground (arith, good, ih, e2)
      | inr bad ↦ absurd (ground (arith, bad, e))
    ]
