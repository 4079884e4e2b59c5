-- ===== src/File/Buffer.antt =====
-- The write buffer of src/qp_file.c: what stands in it, and how its parts are moved.
use qphi.Common.{
  ltb, true, false, none, ◌<◌, ℕ, zero, suc, ◌+◌, ◌-◌, ◌≤◌, ◌≡◌, ◌≢◌, refl, ◌∙◌, sym, ap, false,
  List, [], ◌∷◌, ◌++◌, some, ◌==◌, take, drop, length, length-append, length-drop, arith,
  ℕ_discrete,
}
use qphi.File.{FileInfo, peek, poke, shift, minus}

module _ {ℓ} {A : Type ℓ} where
  pub length-take : (n : ℕ) (xs : List A) → n ≤ length xs → length (take n xs) ≡ n
  length-take zero xs le = omega arith
  length-take (suc n) [] le = absurd (omega (arith, le))
  length-take (suc n) (x ∷ xs) le = omega (arith, length-take n xs (omega (arith, le)))

  pub take-drop : (n : ℕ) (xs : List A) → take n xs ++ drop n xs ≡ xs
  take-drop zero xs = refl
  take-drop (suc n) [] = refl
  take-drop (suc n) (x ∷ xs) = ap (λ l. x ∷ l) (take-drop n xs)

  pub take_front : (n : ℕ) (xs ys : List A) → length xs ≡ n → take n (xs ++ ys) ≡ xs
  take_front zero [] ys e = refl
  take_front zero (x ∷ xs) ys e = absurd (omega (arith, e))
  take_front (suc n) [] ys e = absurd (omega (arith, e))
  take_front (suc n) (x ∷ xs) ys e = ap (λ l. x ∷ l) (take_front n xs ys (omega (arith, e)))

  pub take_all : (n : ℕ) (xs : List A) → length xs ≡ n → take n xs ≡ xs
  take_all zero [] e = refl
  take_all zero (x ∷ xs) e = absurd (omega (arith, e))
  take_all (suc n) [] e = absurd (omega (arith, e))
  take_all (suc n) (x ∷ xs) e = ap (λ l. x ∷ l) (take_all n xs (omega (arith, e)))

  pub drop_all : (n : ℕ) (xs : List A) → length xs ≤ n → drop n xs ≡ []
  drop_all zero [] e = refl
  drop_all zero (x ∷ xs) e = absurd (omega (arith, e))
  drop_all (suc n) [] e = refl
  drop_all (suc n) (x ∷ xs) e = drop_all n xs (omega (arith, e))

  pub take-take : (m n : ℕ) (xs : List A) → m ≤ n → take m (take n xs) ≡ take m xs
  take-take zero n xs le = refl
  take-take (suc m) zero xs le = absurd (omega (arith, le))
  take-take (suc m) (suc n) [] le = refl
  take-take (suc m) (suc n) (x ∷ xs) le = ap (λ l. x ∷ l) (take-take m n xs (omega (arith, le)))

  pub drop-take : (m n : ℕ) (xs : List A) → drop m (take n xs) ≡ take (n - m) (drop m xs)
  drop-take zero n xs = ap (λ k. take k xs) (omega arith)
  drop-take (suc m) zero xs =
      let e : 0 ≡ 0 - suc m = omega arith in ap (λ k. take k (drop (suc m) xs)) e
  drop-take (suc m) (suc n) [] = sym (take_none (suc n - suc m))
    where
      take_none : (k : ℕ) → let nil : List A = [] in take k nil ≡ nil
      take_none zero = refl
      take_none (suc k) = refl
  drop-take (suc m) (suc n) (x ∷ xs) =
      let e : n - m ≡ suc n - suc m = omega arith in
      drop-take m n xs ∙ ap (λ k. take k (drop m xs)) e

  pub nil_append : (xs : List A) → xs ++ [] ≡ xs
  nil_append [] = refl
  nil_append (x ∷ xs) = ap (λ l. x ∷ l) (nil_append xs)

  pub append_assoc : (xs ys zs : List A) → (xs ++ ys) ++ zs ≡ xs ++ (ys ++ zs)
  append_assoc [] ys zs = refl
  append_assoc (x ∷ xs) ys zs = ap (λ l. x ∷ l) (append_assoc xs ys zs)

pub minus-le : (a b : ℕ) → b ≤ a → minus a b ≡ a - b
minus-le a b le = ground (arith, le)

pub peek-in :
    (buf : List ℕ) (at n : ℕ)
    → at + n ≤ length buf
    → peek (some buf) at n ≡ some (take n (drop at buf))
peek-in buf at n le = ground (arith, le)

pub poke-in :
    (buf : List ℕ) (at : ℕ) (bytes : List ℕ)
    → at + length bytes ≤ length buf
    → poke (some buf) at bytes ≡ some (take at buf ++ (bytes ++ drop (at + length bytes) buf))
poke-in buf at bytes le = ground (arith, le)

-- `shift` keeps the bytes that the kernel has not taken, and the size of the buffer.
pub record Shifted (k last : ℕ) (f : FileInfo) (b : List ℕ) : Type 0 where
  pub buf : List ℕ
  pub is : shift k f ≡ some (record f { wrbuf = some buf; wrbuf_offset = last - k })
  pub long : length buf ≡ length b
  pub held : take (last - k) buf ≡ drop k (take last b)

-- With the buffer of the file named.
abbrev pub with_buffer : FileInfo → List ℕ → (last : ℕ) → FileInfo
with_buffer f b last = record f { wrbuf = some b; wrbuf_offsetlast = last }

shift-none :
    (k : ℕ) (f : FileInfo) (b : List ℕ) (last : ℕ)
    → k ≤ last
    → last - k ≡ 0
    → shift k (with_buffer f b last)
      ≡ some (record (with_buffer f b last) { wrbuf_offset = last - k })
unfolding shift
shift-none k f b last le e = ground (arith, minus-le last k le, e)

shift-some :
    (k : ℕ) (f : FileInfo) (b buf : List ℕ) (last : ℕ)
    → k ≤ last
    → last - k ≢ 0
    → last - k ≤ k
    → peek (some b) k (last - k) ≡ some (take (last - k) (drop k b))
    → poke (some b) 0 (take (last - k) (drop k b)) ≡ some buf
    → shift k (with_buffer f b last)
      ≡ some (record f { wrbuf = some buf; wrbuf_offset = last - k; wrbuf_offsetlast = last })
unfolding shift
shift-some k f b buf last le ne half p q =
    rw (minus-le last k le, is_not, apart, p, q)
      (ap (λ v. some (record f { wrbuf = some buf; wrbuf_offset = v; wrbuf_offsetlast = last }))
        (minus-le last k le))
  where
    is_not : (last - k == 0) ≡ false
    is_not = ground (arith, ne)

    apart : ltb k (last - k) ≡ false
    apart = ground (arith, half)

pub shift-Shifted :
    (k : ℕ) (f : FileInfo) (b : List ℕ) (last : ℕ)
    → k ≤ last
    → last ≤ k + k
    → last ≤ length b
    → Shifted k last (with_buffer f b last) b
shift-Shifted k f b last le half fits = elim (ℕ_discrete (last - k) 0) [
  | yes e ↦ record {
    buf = b;
    is = shift-none k f b last le e;
    long = refl;
    held =
        ap (λ n. take n b) e
        ∙ sym (drop_all k (take last b) (omega (arith, length-take last b fits, e)));
  }
  | no ne ↦
      (let part = take (last - k) (drop k b) in
        let size : length part ≡ last - k =
          length-take (last - k) (drop k b) (omega (arith, length-drop k b, fits)) in
        record {
          buf = part ++ drop (0 + length part) b;
          is =
              shift-some k f b (part ++ drop (0 + length part) b) last le ne (omega (arith, half))
                (peek-in b k (last - k) (omega (arith, le, fits)))
                (poke-in b 0 part (omega (arith, size, le, fits)));
          long = omega (
            arith,
            length-append part (drop (0 + length part) b),
            length-drop (0 + length part) b,
            size,
            fits,
          );
          held =
              take_front (last - k) part (drop (0 + length part) b) size ∙ sym (drop-take k last b);
        })
]

-- Where more is left than the kernel took, the ranges overlap.
pub shift-overlap :
    (k : ℕ) (f : FileInfo) (b : List ℕ) (last : ℕ)
    → k + k < last
    → shift k (with_buffer f b last) ≡ none
unfolding shift
shift-overlap k f b last short = rw (minus-le last k (omega (arith, short)), is_not, meets) refl
  where
    is_not : (last - k == 0) ≡ false
    is_not = ground (arith, short)

    meets : ltb k (last - k) ≡ true
    meets = ground (arith, short)
