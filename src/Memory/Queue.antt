-- ===== src/Memory/Queue.antt =====
-- What the operations on `qp_queue_t` of src/core/qp_memory_core.h do to the list of its nodes.
use qphi.Common.{
  ℕ, ◌≡◌, ◌≢◌, refl, sym, ap, subst, true, false, List, [], ◌∷◌, ◌++◌, arith, has, has-append,
  Distinct,
}
use qphi.Memory.Chain.{null}
use qphi.Memory.Ring.{
  Links, queue_init, queue_insert_after_head, queue_insert_after_tail, queue_remove, Seg, last,
  IsQueue, Seg-last, has-last, has-ne, Seg-relink, Seg-split, Seg-join, Seg-same,
}

pub append-nil : (xs : List ℕ) → xs ++ [] ≡ xs
append-nil [] = refl
append-nil (x ∷ xs) = ap (λ zs. x ∷ zs) (append-nil xs)

Distinct-snoc : (n : ℕ) (xs : List ℕ) → Distinct xs → has n xs ≡ false → Distinct (xs ++ n ∷ [])
Distinct-snoc n [] d h = (refl, tt)
Distinct-snoc n (x ∷ xs) d h =
    (ground (arith, has-append x xs (n ∷ [])), Distinct-snoc n xs d.1 (ground arith))

-- What distinct nodes around `n` say.
pub Distinct-around :
    (n : ℕ) (xs ys : List ℕ)
    → Distinct (xs ++ n ∷ ys)
    → Distinct xs
      × Distinct (n ∷ ys)
      × (has n xs ≡ false)
      × ((a : ℕ) → has a ys ≡ true → has a xs ≡ false)
Distinct-around n [] ys d = (tt, d, refl, λ a i. refl)
Distinct-around n (x ∷ xs) ys d =
    let r = Distinct-around n xs ys d.1 in
    (
      (ground (arith, has-append x xs (n ∷ ys), d.0), r.0),
      r.1,
      ground (arith, has-append x xs (n ∷ ys), d.0, r.2),
      λ a i. let j = r.3 a i in ground (arith, has-append x xs (n ∷ ys), d.0),
    )

Distinct-without : (n : ℕ) (xs ys : List ℕ) → Distinct (xs ++ n ∷ ys) → Distinct (xs ++ ys)
Distinct-without n [] ys d = d.1
Distinct-without n (x ∷ xs) ys d = (
  ground (arith, has-append x xs (n ∷ ys), has-append x xs ys, d.0),
  Distinct-without n xs ys d.1,
)

-- `qp_queue_init` makes an empty queue.
pub queue_init-IsQueue : (q : ℕ) (l : Links) → q ≢ null → IsQueue (queue_init q l) q []
unfolding queue_init
queue_init-IsQueue q l set = record {
  ring = ground arith;
  distinct = (refl, tt);
  real = ground arith;
}

module _ (l : Links) (q n : ℕ) (xs : List ℕ) (queue : IsQueue l q xs) (set : n ≢ null)
    (new : has n (q ∷ xs) ≡ false) where
  -- `qp_queue_insert_after_tail` of a node that is not in the queue puts it behind the last one.
  pub queue_insert_after_tail-IsQueue : IsQueue (queue_insert_after_tail q n l) q (xs ++ n ∷ [])
  unfolding queue_insert_after_tail
  queue_insert_after_tail-IsQueue =
      let behind : l.prev q ≡ last q xs = Seg-last l q xs q queue.ring in
      let q_set : q ≢ null = ground (arith, queue.real) in
      let apart : n ≢ last q xs = has-ne (last q xs) n (q ∷ xs) (has-last q xs) new in
      let other : n ≢ q = ground arith in
      record {
        ring =
            Seg-join (queue_insert_after_tail q n l) q xs n [] q
              (Seg-relink l (queue_insert_after_tail q n l) q xs q n queue.ring queue.distinct
                (λ a i ne. let no = has-ne a n (q ∷ xs) i new in ground arith)
                (λ b i.
                  let no = has-ne b n xs i (ground arith) in
                  let no' = has-ne b q xs i queue.distinct.0 in ground arith)
                (ground arith) (ground arith))
              (ground arith, ground arith);
        distinct = Distinct-snoc n (q ∷ xs) queue.distinct new;
        real = ground (arith, has-append null xs (n ∷ []), queue.real);
      }

  -- `qp_queue_insert_after_head` of a node that is not in the queue puts it before the first one.
  pub queue_insert_after_head-IsQueue : IsQueue (queue_insert_after_head q n l) q (n ∷ xs)
  unfolding queue_insert_after_head
  queue_insert_after_head-IsQueue = record {
    ring = inserted xs queue.ring queue.distinct new;
    distinct = ground arith;
    real = ground (arith, queue.real);
  }
    where
      inserted :
          (xs : List ℕ)
          → Seg l q xs q
          → Distinct (q ∷ xs)
          → has n (q ∷ xs) ≡ false
          → Seg (queue_insert_after_head q n l) q (n ∷ xs) q
      inserted [] h d new = ground (arith, queue.real)
      inserted (x ∷ xs) h d new =
          let other : n ≢ q = ground arith in
          (
            ground (arith, queue.real),
            ground (arith, queue.real),
            (
              ground (arith, queue.real),
              ground (arith, queue.real),
              Seg-same l (queue_insert_after_head q n l) x xs q h.2
                  (λ a i.
                    let no = has-ne a n (q ∷ x ∷ xs) (ground arith) new in
                    let no' = has-ne a q (x ∷ xs) i d.0 in ground arith)
                  (λ b i.
                    let no = has-ne b n (q ∷ x ∷ xs) (ground arith) new in
                    let no' : x ≢ b = λ e. ground arith in ground arith),
            ),
          )

-- `qp_queue_remove` takes a node out of the queue it is in, wherever it stands.
pub queue_remove-IsQueue :
    (l : Links) (q n : ℕ) (xs ys : List ℕ)
    → IsQueue l q (xs ++ n ∷ ys)
    → IsQueue (queue_remove n l) q (xs ++ ys)
unfolding queue_remove
queue_remove-IsQueue l q n xs ys queue = record {
  ring = removed set xs ys queue.ring queue.distinct;
  distinct = Distinct-without n (q ∷ xs) ys queue.distinct;
  real = ground (arith, has-append null xs (n ∷ ys), has-append null xs ys, queue.real);
}
  where
    set : n ≢ null
    set = ground (arith, has-append null xs (n ∷ ys), queue.real)

    removed :
        n ≢ null
        → (xs ys : List ℕ) → Seg l q (xs ++ n ∷ ys) q
        → Distinct (q ∷ (xs ++ n ∷ ys))
        → Seg (queue_remove n l) q (xs ++ ys) q
    removed set xs [] h d =
        let around = Distinct-around n (q ∷ xs) [] d in
        let parts = Seg-split l q xs n [] q h in
        let behind : l.prev n ≡ last q xs = Seg-last l q xs n parts.0 in
        let ahead : l.next n ≡ q = parts.1.0 in
        let no : n ≢ q = ground (arith, around.2) in
        subst (λ zs. Seg (queue_remove n l) q zs q) (sym (append-nil xs))
          (Seg-relink l (queue_remove n l) q xs n q parts.0 around.0 (λ a i ne. ground arith)
            (λ b i. let apart = has-ne b q xs i around.0.0 in ground arith) (ground arith)
            (ground arith))
    removed set xs (y ∷ ys) h d =
        let around = Distinct-around n (q ∷ xs) (y ∷ ys) d in
        let parts = Seg-split l q xs n (y ∷ ys) q h in
        let behind : l.prev n ≡ last q xs = Seg-last l q xs n parts.0 in
        let ahead : l.next n ≡ y = parts.1.0 in
        let no : n ≢ y = ground (arith, around.1) in
        let y_new : has y (q ∷ xs) ≡ false = around.3 y (ground arith) in
        Seg-join (queue_remove n l) q xs y ys q
          (Seg-relink l (queue_remove n l) q xs n y parts.0 around.0 (λ a i ne. ground arith)
            (λ b i. let apart = has-ne b y xs i (ground arith) in ground arith) (ground arith)
            (ground arith))
          (Seg-same l (queue_remove n l) y ys q parts.1.2
            (λ a i.
              let apart = has-ne (last q xs) a (q ∷ xs) (has-last q xs) (around.3 a i) in
              ground arith)
            (λ b i. let apart : b ≢ y = λ e. ground (arith, around.1) in ground arith))
