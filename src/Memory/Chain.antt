-- ===== src/Memory/Chain.antt =====
-- `qp_list_t` of src/core/qp_memory_core.h: a singly linked circular list with a head node.
use qphi.Common.{
  ℕ, ◌≡◌, ◌≢◌, Bool, true, false, ◌&&◌, not, List, [], ◌∷◌, arith, ◌==◌, if◌then◌else◌, has,
}

-- a field of the nodes, by the address of the node
abbrev pub Field : Type 0
Field = ℕ → ℕ

abbrev pub null : ℕ
null = 0

abbrev pub update {ℓ} : {A : Type ℓ} → (ℕ → A) → ℕ → A → ℕ → A
update f a v b = if b == a then v else f b

pub update_self {ℓ} : {A : Type ℓ} (f : ℕ → A) (a : ℕ) (v : A) → update f a v a ≡ v
update_self f a v = ground arith

pub update_ne {ℓ} : {A : Type ℓ} (f : ℕ → A) (a b : ℕ) (v : A) → b ≢ a → update f a v b ≡ f b
update_ne f a b v h = ground arith

unfoldable pub list_init : ℕ → Field → Field
list_init list next = if list == null then next else update next list list

unfoldable pub list_is_empty : ℕ → Field → Bool
list_is_empty list next = if list == null then true else list == next list

unfoldable pub list_first : ℕ → Field → ℕ
unfolding list_is_empty
list_first list next = if list_is_empty list next then null else next list

unfoldable pub list_push : (list node : ℕ) → Field → Field
list_push list node next =
    if not (list == null) && not (node == null)
    then (let linked = update next node (next list) in update linked list node)
    else next

unfoldable pub list_pop : ℕ → Field → Field
list_pop list next = if list == null then next else update next list (next (next list))

-- From `p` the `next` fields lead through `xs` to `stop`.
abbrev pub Chain : Field → (stop p : ℕ) → List ℕ → Type 0
Chain next stop p [] = next p ≡ stop
Chain next stop p (x ∷ xs) = (next p ≡ x) × Chain next stop x xs

-- The list with head `list` holds the nodes `xs`, first node first.
abbrev pub IsList : Field → ℕ → List ℕ → Type 0
IsList next list xs = Chain next list list xs

-- A chain survives a change of the fields at `a`, if `a` is none of its nodes, and may be entered
-- from another node that leads to the same first one.
pub Chain-hop :
    (f g : Field) (stop p q a : ℕ) (xs : List ℕ)
    → Chain f stop p xs
    → g q ≡ f p
    → has a xs ≡ false
    → ((b : ℕ) → (b == a) ≡ false → g b ≡ f b)
    → Chain g stop q xs
Chain-hop f g stop p q a [] c hop out same = ground arith
Chain-hop f g stop p q a (x ∷ xs) c hop out same =
    (ground arith, Chain-hop f g stop x x a xs c.1 (ground (arith, same x)) (ground arith) same)

module _ (next : Field) (list : ℕ) (here : list ≢ null) where
  pub list_init-IsList : IsList (list_init list next) list []
  unfolding list_init
  list_init-IsList = ground arith

  pub list_is_empty-cons :
      (x : ℕ) (xs : List ℕ)
      → has list (x ∷ xs) ≡ false
      → IsList next list (x ∷ xs)
      → (list_is_empty list next ≡ false) × (list_first list next ≡ x)
  unfolding list_is_empty list_first
  list_is_empty-cons x xs out c = ground arith

  pub list_is_empty-nil :
      IsList next list [] → (list_is_empty list next ≡ true) × (list_first list next ≡ null)
  unfolding list_is_empty list_first
  list_is_empty-nil c = ground arith

  pub list_push-cons :
      (node : ℕ) (xs : List ℕ)
      → node ≢ null
      → node ≢ list
      → has node xs ≡ false
      → has list xs ≡ false
      → IsList next list xs
      → IsList (list_push list node next) list (node ∷ xs)
  unfolding list_push
  list_push-cons node xs set new fresh out c =
      rw (ne_test list here, ne_test node set)
        (
          ground arith,
          Chain-hop linked _ list node node list xs
              (Chain-hop next linked list list node node xs c (ground arith) fresh (ground arith))
              (ground arith) out (ground arith),
        )
    where
      ne_test : (a : ℕ) → a ≢ null → (a == null) ≡ false
      ne_test a h = ground arith

      linked : Field
      linked = update next node (next list)

  pub list_pop-tail :
      (x : ℕ) (xs : List ℕ)
      → has list (x ∷ xs) ≡ false
      → IsList next list (x ∷ xs)
      → IsList (list_pop list next) list xs
  unfolding list_pop
  list_pop-tail x xs out c =
      Chain-hop next _ list x list list xs c.1 (ground arith) (ground arith) (ground arith)

  pub list_pop-nil : IsList next list [] → IsList (list_pop list next) list []
  unfolding list_pop
  list_pop-nil c = ground arith
