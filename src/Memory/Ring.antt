-- ===== src/Memory/Ring.antt =====
-- `qp_queue_t` of src/core/qp_memory_core.h: a doubly linked ring with a head node. Each function is
-- the source's sequence of assignments.
use qphi.Common.{
  ℕ, ◌≡◌, ◌≢◌, refl, sym, ap, ◌∙◌, Bool, true, false, ◌||◌, List, [], ◌∷◌, ◌++◌, arith, ◌==◌,
  if◌then◌else◌, has, Distinct,
}
use qphi.Memory.Chain.{Field, null, update}

pub record Links : Type 0 where
  pub prev : Field
  pub next : Field

abbrev pub set_prev : (node to : ℕ) → Links → Links
set_prev node to l = record l { prev = update l.prev node to }

abbrev pub set_next : (node to : ℕ) → Links → Links
set_next node to l = record l { next = update l.next node to }

unfoldable pub queue_init : ℕ → Links → Links
queue_init q l = if q == null then l else set_next q q (set_prev q q l)

unfoldable pub queue_is_empty : ℕ → Links → Bool
queue_is_empty q l = if q == null then true else q == l.prev q

unfoldable pub queue_insert_after_head : (queue node : ℕ) → Links → Links
queue_insert_after_head q n l =
    if q == null || n == null
    then l
    else (let l1 = set_next n (l.next q) l in
        let l2 = set_prev (l1.next n) n l1 in let l3 = set_prev n q l2 in set_next q n l3)

unfoldable pub queue_insert_after_tail : (queue node : ℕ) → Links → Links
queue_insert_after_tail q n l =
    if q == null || n == null
    then l
    else (let l1 = set_prev n (l.prev q) l in
        let l2 = set_next (l1.prev n) n l1 in let l3 = set_next n q l2 in set_prev q n l3)

unfoldable pub queue_first : ℕ → Links → ℕ
unfolding queue_is_empty
queue_first q l = if queue_is_empty q l then null else l.next q

unfoldable pub queue_last : ℕ → Links → ℕ
unfolding queue_is_empty
queue_last q l = if queue_is_empty q l then null else l.prev q

unfoldable pub queue_remove : ℕ → Links → Links
queue_remove n l =
    if n == null
    then l
    else (let l1 = set_prev (l.next n) (l.prev n) l in set_next (l1.prev n) (l1.next n) l1)

unfoldable pub queue_split : (queue node newq : ℕ) → Links → Links
queue_split q n new l =
    if q == null || n == null || new == null
    then l
    else (let l1 = set_prev new (l.prev q) l in
        let l2 = set_next (l1.prev new) new l1 in
        let l3 = set_next new n l2 in
        let l4 = set_prev q (l3.prev n) l3 in
        let l5 = set_next (l4.prev q) q l4 in set_prev n new l5)

unfoldable pub queue_merge : (queue newq : ℕ) → Links → Links
queue_merge q new l =
    if q == null || new == null
    then l
    else (let l1 = set_next (l.prev q) (l.next new) l in
        let l2 = set_prev (l1.next new) (l1.prev q) l1 in
        let l3 = set_prev q (l2.prev new) l2 in set_next (l3.prev q) q l3)

-- Each of `p` and `xs` leads to the next one, and the last to `stop`, and each of these leads back.
abbrev pub Seg : Links → (p : ℕ) → List ℕ → (stop : ℕ) → Type 0
Seg l p [] stop = (l.next p ≡ stop) × (l.prev stop ≡ p)
Seg l p (x ∷ xs) stop = (l.next p ≡ x) × (l.prev x ≡ p) × Seg l x xs stop

abbrev pub last : ℕ → List ℕ → ℕ
last p [] = p
last p (x ∷ xs) = last x xs

-- The queue with head `q` holds the nodes `xs`.
pub record IsQueue (l : Links) (q : ℕ) (xs : List ℕ) : Type 0 where
  pub ring : Seg l q xs q
  pub distinct : Distinct (q ∷ xs)
  pub real : has null (q ∷ xs) ≡ false

pub Seg-last :
    (l : Links) (p : ℕ) (xs : List ℕ) (stop : ℕ) → Seg l p xs stop → l.prev stop ≡ last p xs
Seg-last l p [] stop h = h.1
Seg-last l p (x ∷ xs) stop h = Seg-last l x xs stop h.2

pub has-last : (p : ℕ) (xs : List ℕ) → has (last p xs) (p ∷ xs) ≡ true
has-last p [] = ground arith
has-last p (x ∷ xs) = let h = has-last x xs in ground arith

pub has-ne : (a b : ℕ) (xs : List ℕ) → has a xs ≡ true → has b xs ≡ false → b ≢ a
has-ne a b xs yes_a no_b e = true_false (sym yes_a ∙ ap (λ c. has c xs) (sym e) ∙ no_b)
  where
    true_false : true ≡ false → ⊥
    true_false p = ground arith

pub last-append : (p : ℕ) (xs : List ℕ) (x : ℕ) (ys : List ℕ) → last p (xs ++ x ∷ ys) ≡ last x ys
last-append p [] x ys = refl
last-append p (y ∷ xs) x ys = last-append y xs x ys

-- A segment in changed links, that its last node now leads elsewhere.
pub Seg-relink :
    (l m : Links) (p : ℕ) (xs : List ℕ) (stop to : ℕ)
    → Seg l p xs stop
    → Distinct (p ∷ xs)
    → ((a : ℕ) → has a (p ∷ xs) ≡ true → a ≢ last p xs → m.next a ≡ l.next a)
    → ((b : ℕ) → has b xs ≡ true → m.prev b ≡ l.prev b)
    → m.next (last p xs) ≡ to
    → m.prev to ≡ last p xs
    → Seg m p xs to
Seg-relink l m p [] stop to h d same_next same_prev e f = (e, f)
Seg-relink l m p (x ∷ xs) stop to h d same_next same_prev e f = (
  same_next p (ground arith) (λ i. has-ne (last x xs) p (x ∷ xs) (has-last x xs) d.0 i) ∙ h.0,
  same_prev x (ground arith) ∙ h.1,
  Seg-relink l m x xs stop to h.2 d.1 (λ a i. same_next a (ground arith))
      (λ b i. same_prev b (ground arith)) e f,
)

pub Seg-split :
    (l : Links) (p : ℕ) (xs : List ℕ) (x : ℕ) (ys : List ℕ) (stop : ℕ)
    → Seg l p (xs ++ x ∷ ys) stop
    → Seg l p xs x × Seg l x ys stop
Seg-split l p [] x ys stop h = ((h.0, h.1), h.2)
Seg-split l p (y ∷ xs) x ys stop h =
    let r = Seg-split l y xs x ys stop h.2 in ((h.0, h.1, r.0), r.1)

pub Seg-join :
    (l : Links) (p : ℕ) (xs : List ℕ) (x : ℕ) (ys : List ℕ) (stop : ℕ)
    → Seg l p xs x
    → Seg l x ys stop
    → Seg l p (xs ++ x ∷ ys) stop
Seg-join l p [] x ys stop h k = (h.0, h.1, k)
Seg-join l p (y ∷ xs) x ys stop h k = (h.0, h.1, Seg-join l y xs x ys stop h.2 k)

-- The segment in changed links that differ nowhere on it.
pub Seg-same :
    (l m : Links) (p : ℕ) (xs : List ℕ) (stop : ℕ)
    → Seg l p xs stop
    → ((a : ℕ) → has a (p ∷ xs) ≡ true → m.next a ≡ l.next a)
    → ((b : ℕ) → has b (stop ∷ xs) ≡ true → m.prev b ≡ l.prev b)
    → Seg m p xs stop
Seg-same l m p [] stop h same_next same_prev =
    (same_next p (ground arith) ∙ h.0, same_prev stop (ground arith) ∙ h.1)
Seg-same l m p (x ∷ xs) stop h same_next same_prev = (
  same_next p (ground arith) ∙ h.0,
  same_prev x (ground arith) ∙ h.1,
  Seg-same l m x xs stop h.2 (λ a i. same_next a (ground arith))
      (λ b i. same_prev b (ground arith)),
)
