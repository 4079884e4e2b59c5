-- ===== src/Io/Reading.antt =====
-- What `qp_fd_readn` of src/core/qp_io_core.c delivers.
use qphi.Common.{
  ℕ, suc, ◌+◌, ◌-◌, ◌≤◌, ◌<◌, ◌≡◌, inl, inr, refl, ◌∙◌, ap, ap₂, false, Option, none, some, List,
  [], ◌∷◌, ◌++◌, take, drop, take-add, drop-drop, arith, if◌then◌else◌, pos, subst, pos_part,
  minus_one, to_int-pos,
}
use qphi.Io.Transfer.{Answer, readn, readn_loop, Honest, Goes, moved}
use qphi.Io.Delivery.{go_cases, ltb-lt}

-- `qp_fd_readn`: the same answers, but its loop tests `nbytes` alone.
module _ (nbytes : ℕ) (asked : 0 < nbytes) (answers : List Answer) where
  readn-retry :
      (a : Answer) (ndone : ℕ) (stream buf : List ℕ)
      → a.ret ≡ minus_one
      → readn_loop (a ∷ answers) nbytes ndone stream buf
        ≡ (if a.again then readn_loop answers nbytes ndone stream buf else some (ndone, buf))
  unfolding readn_loop
  readn-retry a ndone stream buf h = rw (ltb-lt 0 nbytes asked, h) refl

  readn-more :
      (a : Answer) (ndone n : ℕ) (stream buf : List ℕ)
      → a.ret ≡ pos (suc n)
      → suc n ≤ 0x7ffff000
      → readn_loop (a ∷ answers) nbytes ndone stream buf
        ≡ readn_loop answers nbytes
            (ndone + suc n)
            (drop (suc n) stream)
            (buf ++ take (suc n) stream)
  unfolding readn_loop
  readn-more a ndone n stream buf h b =
      rw (ltb-lt 0 nbytes asked, h, to_int-pos (suc n) (omega arith), h) refl

  readn-eof :
      (a : Answer) (ndone : ℕ) (stream buf : List ℕ)
      → a.ret ≡ pos 0
      → readn_loop (a ∷ answers) nbytes ndone stream buf ≡ some (ndone, buf)
  unfolding readn_loop
  readn-eof a ndone stream buf h = rw (ltb-lt 0 nbytes asked, h) refl

-- The answer to `read` of no bytes, and to `read` at the end of a file.
abbrev pub end_of_file : Answer
end_of_file = record { ret = pos 0; again = false }

module _ (nbytes : ℕ) (asked : 0 < nbytes) (stream : List ℕ) where
  abbrev readn_from : List Answer → ℕ → Option (ℕ × List ℕ)
  readn_from answers ndone = readn_loop answers nbytes ndone (drop ndone stream) (take ndone stream)

  readn_from-more :
      (a : Answer) (answers : List Answer) (ndone n : ℕ)
      → a.ret ≡ pos (suc n)
      → suc n ≤ 0x7ffff000
      → readn_from (a ∷ answers) ndone ≡ readn_from answers (ndone + suc n)
  readn_from-more a answers ndone n h b =
      readn-more nbytes asked answers a ndone n (drop ndone stream) (take ndone stream) h b
      ∙ ap₂ (λ rest out. readn_loop answers nbytes (ndone + suc n) rest out)
          (drop-drop ndone (suc n) stream) (take-add ndone (suc n) stream)

  readn_from-all :
      (answers : List Answer) (ndone : ℕ)
      → ndone ≤ nbytes
      → Honest (nbytes - ndone) answers
      → Goes answers
      → nbytes - ndone ≤ moved answers
      → (readn_from answers ndone ≡ none)
        × (readn_from (answers ++ end_of_file ∷ []) ndone ≡ some (nbytes, take nbytes stream))
  unfolding readn_loop
  readn_from-all [] ndone le honest goes enough =
      let e : ndone ≡ nbytes = omega arith in
      (
        rw (ltb-lt 0 nbytes asked) refl,
        readn-eof nbytes asked [] end_of_file ndone (drop ndone stream) (take ndone stream) refl
            ∙ ap (λ k. some (k, take k stream)) e,
      )
  readn_from-all (a ∷ answers) ndone le honest goes enough =
      elim (go_cases (nbytes - ndone) a answers honest goes) [
        | inl (e, again, rest) ↦
            let ih = readn_from-all answers ndone le rest goes.1 (omega (arith, ap pos_part e)) in
            (
              rw
                  (
                    readn-retry nbytes asked answers a ndone (drop ndone stream) (take ndone stream)
                        e,
                    again,
                  )
                  ih.0,
              rw
                  (
                    readn-retry nbytes asked (answers ++ end_of_file ∷ []) a ndone
                        (drop ndone stream) (take ndone stream) e,
                    again,
                  )
                  ih.1,
            )
        | inr (n, e, fits, small, rest) ↦
            let ih =
              readn_from-all answers (ndone + suc n) (omega arith)
                (subst (λ k. Honest k answers) (omega arith) rest) goes.1
                (omega (arith, ap pos_part e)) in
            (
              readn_from-more a answers ndone n e small ∙ ih.0,
              readn_from-more a (answers ++ end_of_file ∷ []) ndone n e small ∙ ih.1,
            )
      ]

-- `qp_fd_readn` has read all it was asked for when no answer of the kernel stops the loop and
-- the answers together bring that many bytes. It does not return then, but asks once more, for 0
-- bytes; from the answer 0 to that call it returns with the first `nbytes` bytes of the stream.
pub readn-all :
    (answers : List Answer) (nbytes : ℕ) (stream : List ℕ)
    → 0 < nbytes
    → Honest nbytes answers
    → Goes answers
    → nbytes ≤ moved answers
    → (readn answers nbytes stream ≡ none)
      × (readn (answers ++ end_of_file ∷ []) nbytes stream ≡ some (nbytes, take nbytes stream))
unfolding readn
readn-all answers nbytes stream asked honest goes enough =
    readn_from-all nbytes asked stream answers 0 (omega arith)
      (subst (λ k. Honest k answers) (omega arith) honest) goes (omega arith)
