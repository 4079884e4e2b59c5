-- ===== src/Memory/Divide.antt =====
-- `qp_queue_split` and `qp_queue_merge` of src/core/qp_memory_core.h.
use qphi.Common.{
  ℕ, ◌≡◌, ◌≢◌, sym, subst, true, false, List, [], ◌∷◌, ◌++◌, arith, Bool-cases, inl, inr, has,
  has-append, Distinct,
}
use qphi.Memory.Chain.{null}
use qphi.Memory.Ring.{
  Links, queue_split, queue_merge, Seg, last, IsQueue, Seg-last, has-last, has-ne, Seg-relink,
  Seg-split, Seg-join,
}
use qphi.Memory.Queue.{Distinct-around, append-nil}

-- `qp_queue_split` at a node: the queue keeps the nodes before it, and the new head has that node and
-- those behind it.
pub queue_split-IsQueue :
    (l : Links) (q n new : ℕ) (xs ys : List ℕ)
    → IsQueue l q (xs ++ n ∷ ys)
    → new ≢ null
    → has new (q ∷ (xs ++ n ∷ ys)) ≡ false
    → IsQueue (queue_split q n new l) q xs × IsQueue (queue_split q n new l) new (n ∷ ys)
unfolding queue_split
queue_split-IsQueue l q n new xs ys queue set fresh =
    let around = Distinct-around n (q ∷ xs) ys queue.distinct in
    let parts = Seg-split l q xs n ys q queue.ring in
    let before : l.prev n ≡ last q xs = Seg-last l q xs n parts.0 in
    let end : l.prev q ≡ last n ys = Seg-last l n ys q parts.1 in
    let new_xs : has new (q ∷ xs) ≡ false = ground (arith, has-append new xs (n ∷ ys)) in
    let new_ys : has new (n ∷ ys) ≡ false = ground (arith, has-append new xs (n ∷ ys)) in
    let new_end : new ≢ last n ys = has-ne (last n ys) new (n ∷ ys) (has-last n ys) new_ys in
    let new_before : new ≢ last q xs = has-ne (last q xs) new (q ∷ xs) (has-last q xs) new_xs in
    let real : (q ≢ null) × (n ≢ null) = ground (arith, has-append null xs (n ∷ ys), queue.real) in
    let other : n ≢ q = ground (arith, around.2) in
    let apart : (a : ℕ) → has a (n ∷ ys) ≡ true → has a (q ∷ xs) ≡ false = λ a i.
      elim (Bool-cases (has a ys)) [
        | inl j ↦ around.3 a j
        | inr j ↦ subst (λ b. has b (q ∷ xs) ≡ false) (ground arith) around.2
      ] in
    let ends : last n ys ≢ last q xs =
      has-ne (last q xs) (last n ys) (q ∷ xs) (has-last q xs) (apart (last n ys) (has-last n ys)) in
    (
      record {
        ring =
            Seg-relink l (queue_split q n new l) q xs n q parts.0 around.0
              (λ a i ne.
                let no = has-ne a new (q ∷ xs) i new_xs in
                let no' = has-ne a (last n ys) (q ∷ xs) i (apart (last n ys) (has-last n ys)) in
                ground arith)
              (λ b i.
                let no = has-ne b new xs i (ground arith) in
                let no' = has-ne b q xs i around.0.0 in
                let no'' = has-ne b n xs i (ground (arith, around.2)) in ground arith)
              (ground arith) (ground arith);
        distinct = around.0;
        real = ground (arith, has-append null xs (n ∷ ys), queue.real);
      },
      record {
        ring = (
          ground arith,
          ground arith,
          Seg-relink l (queue_split q n new l) n ys q new parts.1 around.1
              (λ a i ne.
                let no = has-ne a new (n ∷ ys) i new_ys in
                let no' = has-ne (last q xs) a (q ∷ xs) (has-last q xs) (apart a i) in ground arith)
              (λ b i.
                let no = has-ne b new ys i (ground arith) in
                let no' : q ≢ b = λ e. ground (arith, around.3 b i) in
                let no'' = has-ne b n ys i around.1.0 in ground arith)
              (ground arith) (ground arith),
        );
        distinct = (new_ys, around.1);
        real = ground (arith, has-append null xs (n ∷ ys), queue.real);
      },
    )

Distinct-join :
    (xs ys : List ℕ)
    → Distinct xs
    → Distinct ys
    → ((a : ℕ) → has a ys ≡ true → has a xs ≡ false)
    → Distinct (xs ++ ys)
Distinct-join [] ys d e apart = e
Distinct-join (x ∷ xs) ys d e apart =
    let out : has x ys ≡ false = elim (Bool-cases (has x ys)) [
      | inl i ↦ absurd (let j = apart x i in ground arith)
      | inr i ↦ i
    ] in
    (
      ground (arith, has-append x xs ys),
      Distinct-join xs ys d.1 e (λ a i. let j = apart a i in ground arith),
    )

module _ (l : Links) (q new : ℕ) (xs : List ℕ) (queue : IsQueue l q xs) where
  -- The ring of the queue after the merge, for an empty second queue and for one with nodes.
  merged :
      (ys : List ℕ)
      → Seg l new ys new
      → Distinct (new ∷ ys)
      → has null (new ∷ ys) ≡ false
      → ((a : ℕ) → has a (new ∷ ys) ≡ true → has a (q ∷ xs) ≡ false)
      → Seg (queue_merge q new l) q (xs ++ ys) q
  unfolding queue_merge
  merged [] h d real apart =
      let end : l.prev q ≡ last q xs = Seg-last l q xs q queue.ring in
      let new_out : has new (q ∷ xs) ≡ false = apart new (ground arith) in
      let set : q ≢ null = ground (arith, queue.real) in
      subst (λ zs. Seg (queue_merge q new l) q zs q) (sym (append-nil xs))
        (Seg-relink l (queue_merge q new l) q xs q q queue.ring queue.distinct
          (λ a i ne. ground arith)
          (λ b i.
            let no = has-ne b new xs i (ground arith) in
            let no' = has-ne b q xs i queue.distinct.0 in ground arith)
          (ground arith) (ground arith))
  merged (y ∷ ys) h d real apart =
      let end : l.prev q ≡ last q xs = Seg-last l q xs q queue.ring in
      let end' : l.prev new ≡ last y ys = Seg-last l new (y ∷ ys) new h in
      let out : (a : ℕ) → has a (y ∷ ys) ≡ true → has a (q ∷ xs) ≡ false =
        λ a i. apart a (ground arith) in
      let y_out : has y (q ∷ xs) ≡ false = out y (ground arith) in
      let new_out : has new (q ∷ xs) ≡ false = apart new (ground arith) in
      let set : q ≢ null = ground (arith, queue.real) in
      let ends =
        has-ne (last q xs) (last y ys) (q ∷ xs) (has-last q xs) (out (last y ys) (has-last y ys)) in
      Seg-join (queue_merge q new l) q xs y ys q
        (Seg-relink l (queue_merge q new l) q xs q y queue.ring queue.distinct
          (λ a i ne.
            let no = has-ne a (last y ys) (q ∷ xs) i (out (last y ys) (has-last y ys)) in
            ground arith)
          (λ b i.
            let no = has-ne b y xs i (ground arith) in
            let no' = has-ne b q xs i queue.distinct.0 in ground arith)
          (ground arith) (ground arith))
        (Seg-relink l (queue_merge q new l) y ys new q h.2 d.1
          (λ a i ne.
            let no = has-ne (last q xs) a (q ∷ xs) (has-last q xs) (out a i) in ground arith)
          (λ b i.
            let no = has-ne b y ys i d.1.0 in
            let k = out b (ground arith) in let no' : q ≢ b = λ e. ground arith in ground arith)
          (ground arith) (ground arith))

-- `qp_queue_merge` of two queues without a common node puts all nodes of the second, in their order,
-- behind those of the first, also where the second is empty.
pub queue_merge-IsQueue :
    (l : Links) (q new : ℕ) (xs ys : List ℕ)
    → IsQueue l q xs
    → IsQueue l new ys
    → ((a : ℕ) → has a (new ∷ ys) ≡ true → has a (q ∷ xs) ≡ false)
    → IsQueue (queue_merge q new l) q (xs ++ ys)
queue_merge-IsQueue l q new xs ys queue joined apart = record {
  ring = merged l q new xs queue ys joined.ring joined.distinct joined.real apart;
  distinct =
      Distinct-join (q ∷ xs) ys queue.distinct joined.distinct.1 (λ a i. apart a (ground arith));
  real = ground (arith, has-append null xs ys, queue.real, joined.real);
}
