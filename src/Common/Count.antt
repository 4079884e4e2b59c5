-- ===== src/Common/Count.antt =====
-- How often an address is in a list; a list is distinct if none is in it twice.
use Prim.Native.Nat.{ℕ, ◌+◌, ◌≤◌}
use mathlib.Core.Path.{◌≡◌, refl}
use mathlib.Core.Bool.{false}
use mathlib.Core.List.{List, [], ◌∷◌, ◌++◌}
use native.Mathlib.Omega.{arith}
use qphi.Common.Tests.{◌==◌, if◌then◌else◌}
use qphi.Common.Sets.{has, Distinct}

abbrev pub count : ℕ → List ℕ → ℕ
count a [] = 0
count a (x ∷ xs) = (if a == x then 1 else 0) + count a xs

pub count-append :
    (n : ℕ) (front back : List ℕ) → count n (front ++ back) ≡ count n front + count n back
count-append n [] back = omega arith
count-append n (m ∷ front) back = let rest = count-append n front back in omega arith

pub count-has : (a : ℕ) (xs : List ℕ) → has a xs ≡ false → count a xs ≡ 0
count-has a [] h = refl
count-has a (x ∷ xs) h = ground (arith, count-has a xs)

pub has-count : (a : ℕ) (xs : List ℕ) → count a xs ≡ 0 → has a xs ≡ false
has-count a [] h = refl
has-count a (x ∷ xs) h = ground (arith, has-count a xs)

pub count-Distinct : (xs : List ℕ) → Distinct xs → (a : ℕ) → count a xs ≤ 1
count-Distinct [] d a = omega arith
count-Distinct (x ∷ xs) d a = let r = count-Distinct xs d.1 a in ground (arith, count-has a xs, d.0)

pub Distinct-count : (xs : List ℕ) → ((a : ℕ) → count a xs ≤ 1) → Distinct xs
Distinct-count [] h = tt
Distinct-count (x ∷ xs) h =
    let hx = h x in
    (ground (arith, has-count x xs), Distinct-count xs (λ a. let k = h a in ground arith))
