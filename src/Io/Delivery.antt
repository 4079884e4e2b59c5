-- ===== src/Io/Delivery.antt =====
-- What `qp_fd_writen` of src/core/qp_io_core.c delivers, for each way in which the kernel answers.
use qphi.Common.{
  ℕ, zero, suc, ◌+◌, ◌-◌, ◌≤◌, ◌<◌, ◌≡◌, ◌⊎◌, inl, inr, refl, sym, ◌∙◌, ap, ap₂, true, false,
  Option, some, List, [], ◌∷◌, ◌++◌, take, drop, length, take-add, drop-drop, arith, ltb,
  if◌then◌else◌, pos, take-length, subst, dec_lt, Bool-cases, pos_part, minus_one, to_int-pos,
  Returns,
}
use qphi.Io.Transfer.{Answer, writen, writen_loop, Honest, Goes, moved, Stops, Ends}

-- The test of a loop, from the order.
pub ltb-lt : (m n : ℕ) → m < n → ltb m n ≡ true
ltb-lt m n h = ground arith

ltb-ge : (m n : ℕ) → n ≤ m → ltb m n ≡ false
ltb-ge m n h = ground arith

clash : (n : ℕ) → minus_one ≡ pos n → ⊥
clash n p = ground arith

-- The ways in which a loop that all answers keep going meets its next answer.
pub go_cases :
    (room : ℕ) (a : Answer) (answers : List Answer)
    → Honest room (a ∷ answers)
    → Goes (a ∷ answers)
    → (a.ret ≡ minus_one) × (a.again ≡ true) × Honest room answers
      ⊎ (n : ℕ) × (a.ret ≡ pos (suc n))
        × (suc n ≤ room)
        × (suc n ≤ 0x7ffff000)
        × Honest (room - suc n) answers
go_cases room a answers (inl (e, honest)) (inl (f, again), goes) = inl (e, again, honest)
go_cases room a answers (inl (e, honest)) (inr (n, f), goes) = absurd (clash (suc n) (sym e ∙ f))
go_cases room a answers (inr (m, e, le, small, honest)) (inl (f, again), goes) =
    absurd (clash m (sym f ∙ e))
go_cases room a answers (inr (m, e, le, small, honest)) (inr (n, f), goes) =
    let p : m ≡ suc n = sym (ap pos_part e) ∙ ap pos_part f in
    inr (n, f, omega (arith, p), omega (arith, p), subst (λ k. Honest (room - k) answers) p honest)

-- One answer of the kernel, once the loop asks: a retry, or `suc k` bytes more.
module _ (nbytes ndone : ℕ) (open_lt : ndone < nbytes) (answers : List Answer) where
  writen-retry :
      (a : Answer) (rest out : List ℕ)
      → a.ret ≡ minus_one
      → writen_loop (a ∷ answers) nbytes ndone rest out
        ≡ (if a.again then writen_loop answers nbytes ndone rest out else some (ndone, out))
  unfolding writen_loop
  writen-retry a rest out h = rw (ltb-lt ndone nbytes open_lt, h) refl

  writen-more :
      (a : Answer) (n : ℕ) (rest out : List ℕ)
      → a.ret ≡ pos (suc n)
      → suc n ≤ 0x7ffff000
      → writen_loop (a ∷ answers) nbytes ndone rest out
        ≡ writen_loop answers nbytes (ndone + suc n) (drop (suc n) rest) (out ++ take (suc n) rest)
  unfolding writen_loop
  writen-more a n rest out h b =
      rw (ltb-lt ndone nbytes open_lt, h, to_int-pos (suc n) (omega arith), h) refl

  writen-eof :
      (a : Answer) (rest out : List ℕ)
      → a.ret ≡ pos 0
      → writen_loop (a ∷ answers) nbytes ndone rest out ≡ some (ndone, out)
  unfolding writen_loop
  writen-eof a rest out h = rw (ltb-lt ndone nbytes open_lt, h) refl

writen-closed :
    (answers : List Answer) (nbytes ndone : ℕ) (rest out : List ℕ)
    → nbytes ≤ ndone
    → writen_loop answers nbytes ndone rest out ≡ some (ndone, out)
unfolding writen_loop
writen-closed [] nbytes ndone rest out h = rw (ltb-ge ndone nbytes h) refl
writen-closed (a ∷ answers) nbytes ndone rest out h = rw (ltb-ge ndone nbytes h) refl

-- The loop with `ndone` bytes out: what is left of `bytes`, and what has been written of them.
module _ (bytes : List ℕ) where
  abbrev writen_from : List Answer → ℕ → Option (ℕ × List ℕ)
  writen_from answers ndone =
      writen_loop answers (length bytes) ndone (drop ndone bytes) (take ndone bytes)

  writen_from-more :
      (a : Answer) (answers : List Answer) (ndone n : ℕ)
      → ndone < length bytes
      → a.ret ≡ pos (suc n)
      → suc n ≤ 0x7ffff000
      → writen_from (a ∷ answers) ndone ≡ writen_from answers (ndone + suc n)
  writen_from-more a answers ndone n lt h b =
      writen-more (length bytes) ndone lt answers a n (drop ndone bytes) (take ndone bytes) h b
      ∙ ap₂ (λ rest out. writen_loop answers (length bytes) (ndone + suc n) rest out)
          (drop-drop ndone (suc n) bytes) (take-add ndone (suc n) bytes)

  -- All of it is out.
  writen_from-closed :
      (answers : List Answer) (ndone : ℕ)
      → ndone ≤ length bytes
      → length bytes ≤ ndone
      → writen_from answers ndone ≡ some (length bytes, bytes)
  writen_from-closed answers ndone le ge =
      let e : ndone ≡ length bytes = omega arith in
      writen-closed answers (length bytes) ndone (drop ndone bytes) (take ndone bytes) ge
      ∙ ap (λ k. some (k, take k bytes)) e
      ∙ ap (λ l. some (length bytes, l)) (take-length bytes)

  writen_from-all :
      (answers : List Answer) (ndone : ℕ)
      → ndone ≤ length bytes
      → Honest (length bytes - ndone) answers
      → Goes answers
      → length bytes - ndone ≤ moved answers
      → writen_from answers ndone ≡ some (length bytes, bytes)
  writen_from-all [] ndone le honest goes enough = writen_from-closed [] ndone le (omega arith)
  writen_from-all (a ∷ answers) ndone le honest goes enough = elim (dec_lt ndone (length bytes)) [
    | no ge ↦ writen_from-closed (a ∷ answers) ndone le (omega arith)
    | yes lt ↦ elim (go_cases (length bytes - ndone) a answers honest goes) [
      | inl (e, again, rest) ↦
          writen-retry (length bytes) ndone lt answers a (drop ndone bytes) (take ndone bytes) e
          ∙ (rw again (writen_from-all answers ndone le rest goes.1 (omega (arith, ap pos_part e))))
      | inr (n, e, fits, small, rest) ↦
          writen_from-more a answers ndone n lt e small
          ∙ writen_from-all answers (ndone + suc n) (omega arith)
              (subst (λ k. Honest k answers) (omega arith) rest) goes.1
              (omega (arith, ap pos_part e))
    ]
  ]

-- What `writen` promises of what it returns, whatever the answers.
abbrev pub Prefix : List ℕ → ℕ × List ℕ → Type 0
Prefix bytes r = (r.0 ≤ length bytes) × (r.1 ≡ take r.0 bytes)

module _ (bytes : List ℕ) where
  -- The loop that an error or an end of file stops.
  writen_from-stop :
      (a : Answer) (answers : List Answer) (ndone : ℕ)
      → ndone ≤ length bytes
      → ndone < length bytes
      → Stops a
      → Returns (Prefix bytes) (writen_from bytes (a ∷ answers) ndone)
  writen_from-stop a answers ndone le lt (inl e) =
      rw (writen-eof (length bytes) ndone lt answers a (drop ndone bytes) (take ndone bytes) e)
        (le, refl)
  writen_from-stop a answers ndone le lt (inr (e, again)) =
      rw
        (
          writen-retry (length bytes) ndone lt answers a (drop ndone bytes) (take ndone bytes) e,
          again,
        )
        (le, refl)

  writen_from-prefix :
      (answers : List Answer) (ndone : ℕ)
      → ndone ≤ length bytes
      → Honest (length bytes - ndone) answers
      → Ends (length bytes - ndone) answers
      → Returns (Prefix bytes) (writen_from bytes answers ndone)
  writen_from-prefix [] ndone le honest ends =
      rw (writen_from-closed bytes [] ndone le (omega (arith, ends)))
        (omega arith, sym (take-length bytes))
  writen_from-prefix (a ∷ answers) ndone le honest ends = elim (dec_lt ndone (length bytes)) [
    | no ge ↦
        rw (writen_from-closed bytes (a ∷ answers) ndone le (omega arith))
          (omega arith, sym (take-length bytes))
    | yes lt ↦ elim ends [
      | inl stop ↦ writen_from-stop a answers ndone le lt stop
      | inr end ↦ elim honest [
        | inl (e, rest) ↦ elim (Bool-cases a.again) [
          | inl again ↦
              rw
                (
                  writen-retry (length bytes) ndone lt answers a (drop ndone bytes)
                      (take ndone bytes) e,
                  again,
                )
                (writen_from-prefix answers ndone le rest
                  (subst (λ k. Ends k answers) (omega (arith, ap pos_part e)) end))
          | inr again ↦ writen_from-stop a answers ndone le lt (inr (e, again))
        ]
        | inr (zero, e, fits, small, rest) ↦ writen_from-stop a answers ndone le lt (inl e)
        | inr (suc n, e, fits, small, rest) ↦
            rw (writen_from-more bytes a answers ndone n lt e small) (
              writen_from-prefix answers (ndone + suc n) (omega arith)
                (subst (λ k. Honest k answers) (omega arith) rest)
                (subst (λ k. Ends k answers) (omega (arith, ap pos_part e)) end))
      ]
    ]
  ]

-- `qp_fd_writen` writes all of it, and returns its length, when no answer of the kernel stops the
-- loop and the answers together take that many bytes.
pub writen-all :
    (answers : List Answer) (bytes : List ℕ)
    → Honest (length bytes) answers
    → Goes answers
    → length bytes ≤ moved answers
    → writen answers bytes ≡ some (length bytes, bytes)
unfolding writen
writen-all answers bytes honest goes enough =
    writen_from-all bytes answers 0 (omega arith)
      (subst (λ k. Honest k answers) (omega arith) honest) goes (omega arith)

-- Whatever the kernel answers, `qp_fd_writen` returns once the answers took all the bytes or one of
-- them stopped the loop; it returns at most the length, and what is written are that many of the
-- first bytes.
pub writen-prefix :
    (answers : List Answer) (bytes : List ℕ)
    → Honest (length bytes) answers
    → Ends (length bytes) answers
    → Returns (Prefix bytes) (writen answers bytes)
unfolding writen
writen-prefix answers bytes honest ends =
    writen_from-prefix bytes answers 0 (omega arith)
      (subst (λ k. Honest k answers) (omega arith) honest)
      (subst (λ k. Ends k answers) (omega arith) ends)
