-- ===== src/Common/Sets.antt =====
-- Lists of addresses as sets: membership by a test, distinctness, removal of one element.
use Prim.Native.Nat.{ℕ, suc}
use mathlib.Core.Path.{◌≡◌, refl}
use mathlib.Core.Bool.{Bool, true, false, ◌||◌}
use mathlib.Core.List.{List, [], ◌∷◌, ◌++◌}
use native.Mathlib.Omega.{arith}
use qphi.Common.Tests.{◌==◌, if◌then◌else◌}
use qphi.Common.Lists.{length, All}

abbrev pub has : ℕ → List ℕ → Bool
has a [] = false
has a (x ∷ xs) = (a == x) || has a xs

abbrev pub Distinct : List ℕ → Type 0
Distinct [] = Unit
Distinct (x ∷ xs) = (has x xs ≡ false) × Distinct xs

abbrev pub erase : ℕ → List ℕ → List ℕ
erase a [] = []
erase a (x ∷ xs) = if a == x then xs else x ∷ erase a xs

-- no element of the first list is in the second
abbrev pub Apart : List ℕ → List ℕ → Type 0
Apart xs ys = All (λ x. has x ys ≡ false) xs

pub has-append : (a : ℕ) (xs ys : List ℕ) → has a (xs ++ ys) ≡ (has a xs || has a ys)
has-append a [] ys = refl
has-append a (x ∷ xs) ys = ground (arith, has-append a xs ys)

pub Apart-cons : (xs ys : List ℕ) (a : ℕ) → has a xs ≡ false → Apart xs ys → Apart xs (a ∷ ys)
Apart-cons [] ys a h d = tt
Apart-cons (x ∷ xs) ys a h d = (ground arith, Apart-cons xs ys a (ground arith) d.1)

pub has-Apart : (xs ys : List ℕ) (a : ℕ) → Apart xs ys → has a ys ≡ true → has a xs ≡ false
has-Apart [] ys a d h = refl
has-Apart (x ∷ xs) ys a d h = ground (arith, has-Apart xs ys a)

pub has-erase : (a b : ℕ) (xs : List ℕ) → has a xs ≡ false → has a (erase b xs) ≡ false
has-erase a b [] h = refl
has-erase a b (x ∷ xs) h = ground (arith, has-erase a b xs)

pub has-erase_self : (a : ℕ) (xs : List ℕ) → Distinct xs → has a (erase a xs) ≡ false
has-erase_self a [] d = refl
has-erase_self a (x ∷ xs) d = ground (arith, has-erase_self a xs)

pub Distinct-erase : (a : ℕ) (xs : List ℕ) → Distinct xs → Distinct (erase a xs)
Distinct-erase a [] d = tt
Distinct-erase a (x ∷ xs) d = ground (arith, Distinct-erase a xs, has-erase x a xs)

pub Apart-erase : (xs ys : List ℕ) (a : ℕ) → Apart xs ys → Apart xs (erase a ys)
Apart-erase [] ys a d = tt
Apart-erase (x ∷ xs) ys a d = (has-erase x a ys d.0, Apart-erase xs ys a d.1)

pub length-erase : (a : ℕ) (xs : List ℕ) → has a xs ≡ true → suc (length (erase a xs)) ≡ length xs
length-erase a [] h = ground arith
length-erase a (x ∷ xs) h = ground (arith, length-erase a xs)

pub All-erase {κ} : (P : ℕ → Type κ) (a : ℕ) (xs : List ℕ) → All P xs → All P (erase a xs)
All-erase P a [] h = tt
All-erase P a (x ∷ xs) h = ground (arith, All-erase P a xs)

pub All-has {κ} : (P : ℕ → Type κ) (a : ℕ) (xs : List ℕ) → All P xs → has a xs ≡ true → P a
All-has P a [] h e = ground arith
All-has P a (x ∷ xs) h e = ground (arith, All-has P a xs)

pub Apart-nil : (xs : List ℕ) → Apart xs []
Apart-nil [] = tt
Apart-nil (x ∷ xs) = (refl, Apart-nil xs)

-- What a distinct list says of its two parts.
pub Distinct-parts :
    (xs ys : List ℕ)
    → Distinct (xs ++ ys)
    → Distinct xs × Distinct ys × ((a : ℕ) → has a ys ≡ true → has a xs ≡ false)
Distinct-parts [] ys d = (tt, d, λ a i. refl)
Distinct-parts (x ∷ xs) ys d =
    let r = Distinct-parts xs ys d.1 in
    (
      (ground (arith, has-append x xs ys, d.0), r.0),
      r.1,
      λ a i. let j = r.2 a i in ground (arith, has-append x xs ys, d.0),
    )
