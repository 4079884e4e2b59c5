-- ===== src/Rbtree/Both.antt =====
-- The colors and the nodes of a tree of src/core/qp_memory_core.c with its sides exchanged.
use mathlib.Core.List.{reverse, reverse-append}
use qphi.Common.{ℕ, suc, ◌≡◌, inl, inr, refl, ◌∙◌, sym, ap, ap₂, [], ◌∷◌, ◌++◌}
use qphi.Memory.Chain.{Field}
use qphi.Rbtree.{Store}
use qphi.Rbtree.Shape.{Shape, leaf, node, nodes}
use qphi.Rbtree.Trail.{Trail, top, in_left, in_right, plug}
use qphi.Rbtree.Mirror.{mirror, mirror_trail, mirror-mirror}
use qphi.Rbtree.Focus.{Focus-mirror}
use qphi.Rbtree.Balance.{root_red, Balanced, head_black, Holds}
use qphi.Rbtree.Climb.{append_assoc}
use qphi.Rbtree.Round.{depth}
use qphi.Rbtree.Sides.{left_side, right_side}
use qphi.Rbtree.Lacking.{Lacking}
use qphi.Rbtree.Sink.{Whole}

root_red-mirror : (color : Field) (t : Shape) → root_red color (mirror t) ≡ root_red color t
root_red-mirror color leaf = refl
root_red-mirror color (node l a r) = refl

head_black-mirror :
    (color : Field) (c : Trail) → head_black color (mirror_trail c) ≡ head_black color c
head_black-mirror color top = refl
head_black-mirror color (in_left a u up) = refl
head_black-mirror color (in_right u a up) = refl

Balanced-mirror :
    (color : Field) (h : ℕ) (t : Shape) → Balanced color h t → Balanced color h (mirror t)
Balanced-mirror color h leaf v = v
Balanced-mirror color h (node l a r) (inl (c, rl, rr, bl, br)) = inl (
  c,
  root_red-mirror color r ∙ rr,
  root_red-mirror color l ∙ rl,
  Balanced-mirror color h r br,
  Balanced-mirror color h l bl,
)
Balanced-mirror color h (node l a r) (inr (c, (k, e, bl, br))) =
    inr (c, (k, e, Balanced-mirror color k r br, Balanced-mirror color k l bl))

Holds-mirror :
    (color : Field) (h : ℕ) (c : Trail) → Holds color h c → Holds color h (mirror_trail c)
Holds-mirror color h top v = v
Holds-mirror color h (in_left a u up) (b, inl (c, ru, hb, w)) = (
  Balanced-mirror color h u b,
  inl (c, root_red-mirror color u ∙ ru, head_black-mirror color up ∙ hb, Holds-mirror color h up w),
)
Holds-mirror color h (in_left a u up) (b, inr (c, w)) =
    (Balanced-mirror color h u b, inr (c, Holds-mirror color (suc h) up w))
Holds-mirror color h (in_right u a up) (b, inl (c, ru, hb, w)) = (
  Balanced-mirror color h u b,
  inl (c, root_red-mirror color u ∙ ru, head_black-mirror color up ∙ hb, Holds-mirror color h up w),
)
Holds-mirror color h (in_right u a up) (b, inr (c, w)) =
    (Balanced-mirror color h u b, inr (c, Holds-mirror color (suc h) up w))

pub depth-mirror : (c : Trail) → depth (mirror_trail c) ≡ depth c
depth-mirror top = refl
depth-mirror (in_left a u up) = ap suc (depth-mirror up)
depth-mirror (in_right u a up) = ap suc (depth-mirror up)

pub mirror-plug : (c : Trail) (t : Shape) → mirror (plug c t) ≡ plug (mirror_trail c) (mirror t)
mirror-plug top t = refl
mirror-plug (in_left a u up) t = mirror-plug up (node t a u)
mirror-plug (in_right u a up) t = mirror-plug up (node u a t)

nodes-mirror : (t : Shape) → nodes (mirror t) ≡ reverse (nodes t)
nodes-mirror leaf = refl
nodes-mirror (node l a r) =
    ap₂ (λ x y. x ++ a ∷ y) (nodes-mirror r) (nodes-mirror l)
    ∙ sym (
        reverse-append (nodes l) (a ∷ nodes r)
        ∙ ap (λ z. z ++ reverse (nodes l)) (reverse-append (a ∷ []) (nodes r))
        ∙ append_assoc (reverse (nodes r)) (a ∷ []) (reverse (nodes l)))

-- What has the nodes of the exchanged tree has them in order when exchanged itself.
pub nodes-exchange : (t u : Shape) → nodes t ≡ nodes (mirror u) → nodes (mirror t) ≡ nodes u
nodes-exchange t u e =
    nodes-mirror t ∙ ap reverse e ∙ sym (nodes-mirror (mirror u)) ∙ ap nodes (mirror-mirror u)

-- The two sides tell the same.
pub Lacking-right :
    (rb : ℕ) (s : Store) (p x : ℕ) (c : Trail) (t : Shape) (h : ℕ)
    → Lacking (left_side rb) s p x c t h
    → Lacking (right_side rb) s p x (mirror_trail c) (mirror t) h
Lacking-right rb s p x c t h v = record {
  at = Focus-mirror v.at;
  link = v.link;
  stop_set = v.stop_set;
  balanced = Balanced-mirror s.color h t v.balanced;
  holds = Holds-mirror s.color (suc h) c v.holds;
  sentinel = v.sentinel;
}

pub Lacking-left :
    (rb : ℕ) (s : Store) (p x : ℕ) (c : Trail) (t : Shape) (h : ℕ)
    → Lacking (right_side rb) s p x c t h
    → Lacking (left_side rb) s p x (mirror_trail c) (mirror t) h
Lacking-left rb s p x c t h v = record {
  at = Focus-mirror v.at;
  link = v.link;
  stop_set = v.stop_set;
  balanced = Balanced-mirror s.color h t v.balanced;
  holds = Holds-mirror s.color (suc h) c v.holds;
  sentinel = v.sentinel;
}

pub Whole-left :
    (rb : ℕ) (s : Store) (t : Shape) → Whole (right_side rb) s t → Whole (left_side rb) s (mirror t)
Whole-left rb s t v = record {
  at = Focus-mirror v.at;
  height = v.height;
  balanced = Balanced-mirror s.color v.height t v.balanced;
  black_root = root_red-mirror s.color t ∙ v.black_root;
  sentinel = v.sentinel;
}
