-- ===== src/File/Close.antt =====
-- What `qp_file_close` of src/qp_file.c hands to the kernel.
use qphi.Common.{
  All, ◌+◌, ◌^◌, some, ℕ, suc, ◌-◌, ◌<◌, ◌≤◌, ◌≡◌, ◌≢◌, ◌⊎◌, inl, inr, refl, ◌∙◌, sym, ap, subst,
  true, false, List, [], ◌∷◌, ◌++◌, take, drop, length, arith, ℤ, pos, pos_part, minus_one,
  is_minus_one, ltb, ◌==◌, ℕ_discrete,
}
use qphi.File.{
  FileInfo, Result, Outcome, ends, waits, fault, flush, flushed, drain, file_close, write,
}
use qphi.File.Buffer.{take-drop, append_assoc, nil_append}
use qphi.File.Write.{holding, flush-Flushed, flush-direct}
use qphi.File.Turned.{IsFile, pending, Takes}
use qphi.File.Written.{write-Written}

-- The kernel takes the `n` bytes, in each call half of what is left at least, and is then asked to take none.
abbrev pub Drains : (n : ℕ) → List ℤ → Type 0
Drains n [] = ⊥
Drains n (a ∷ answers) =
    (n ≡ 0) × (a ≡ pos 0)
    ⊎ (k : ℕ) × (a ≡ pos (suc k)) × (suc k ≤ n) × (n ≤ suc k + suc k) × Drains (n - suc k) answers

-- The call is over, and the kernel has all of `all`.
pub record Drained (outcome : Outcome) (all : List ℕ) : Type 0 where
  pub ret : ℤ
  pub file : FileInfo
  pub is : outcome ≡ ends (record { ret = ret; file = file; out = all })

drain-step :
    (a : ℤ) (answers : List ℤ) (f : FileInfo) (out : List ℕ) (r : Result)
    → flush a false f out ≡ ends r
    → 0 < pos_part r.ret
    → drain (a ∷ answers) f out ≡ drain answers r.file r.out
unfolding drain
drain-step a answers f out r e up = rw (drain, e, goes_on) refl
  where
    goes_on : ltb 0 (pos_part r.ret) ≡ true
    goes_on = ground (arith, up)

drain-stop :
    (a : ℤ) (answers : List ℤ) (f : FileInfo) (out : List ℕ) (r : Result)
    → flush a false f out ≡ ends r
    → pos_part r.ret ≡ 0
    → drain (a ∷ answers) f out ≡ ends r
unfolding drain
drain-stop a answers f out r e zero_ret = rw (drain, e, stays) refl
  where
    stays : ltb 0 (pos_part r.ret) ≡ false
    stays = ground (arith, zero_ret)

flush-nothing :
    (f : FileInfo) (b : List ℕ) (o l : ℕ) (out : List ℕ)
    → f.is_direct_io ≡ true
    → flush (pos 0) false (holding f b o l) out
      ≡ ends (record { ret = pos 0; file = holding f b o o; out = out ++ [] })
unfolding flushed
flush-nothing f b o l out direct = flush-direct (pos 0) false f b o l out direct

drain-Drained :
    (answers : List ℤ) (f : FileInfo) (b : List ℕ) (o l : ℕ) (out : List ℕ)
    → f.is_direct_io ≡ true
    → length b ≡ f.wrbuf_size
    → o ≤ f.wrbuf_size
    → Drains o answers
    → Drained (drain answers (holding f b o l) out) (out ++ take o b)
drain-Drained [] f b o l out direct long within v = absurd v
drain-Drained (a ∷ answers) f b o l out direct long within (inl (e, a_is)) =
    let went =
      ap (λ a. flush a false (holding f b o l) out) a_is ∙ flush-nothing f b o l out direct in
    let after : Result = record { ret = pos 0; file = holding f b o o; out = out ++ [] } in
    record {
      ret = pos 0;
      file = holding f b o o;
      is =
          drain-stop a answers (holding f b o l) out after went refl
          ∙ ap (λ n. ends (record { ret = pos 0; file = holding f b o o; out = out ++ take n b }))
              (sym e);
    }
drain-Drained (a ∷ answers) f b o l out direct long within (inr (k, a_is, le, half, v)) =
    let w =
      flush-Flushed k o false f b o l out direct refl long le half (omega (arith, long, within)) in
    let went = ap (λ a. flush a false (holding f b o l) out) a_is ∙ w.is in
    let after : Result = record {
      ret = w.ret;
      file = holding f w.buf (o - suc k) o;
      out = out ++ take (suc k) (take o b);
    } in
    let more =
      drain-Drained answers f w.buf (o - suc k) o (out ++ take (suc k) (take o b)) direct
        (w.long ∙ long) (omega (arith, within)) v in
    let whole : (out ++ take (suc k) (take o b)) ++ take (o - suc k) w.buf ≡ out ++ take o b =
      ap (λ xs. (out ++ take (suc k) (take o b)) ++ xs) w.held
      ∙ append_assoc out (take (suc k) (take o b)) (drop (suc k) (take o b))
      ∙ ap (λ xs. out ++ xs) (take-drop (suc k) (take o b)) in
    record {
      ret = more.ret;
      file = more.file;
      is =
          drain-step a answers (holding f b o l) out after went w.positive
          ∙ more.is
          ∙ ap (λ xs. ends (record { ret = more.ret; file = more.file; out = xs })) whole;
    }

-- The number is given back.
pub record Closed (outcome : Outcome) (answer : ℤ) (all : List ℕ) : Type 0 where
  pub file : FileInfo
  pub is : outcome ≡ ends (record { ret = answer; file = file; out = all })
  pub gone : file.fd ≡ minus_one

module _ (answers : List ℤ) (answer : ℤ) (f : FileInfo) (b : List ℕ) (o l : ℕ) (out : List ℕ)
    (valid : is_minus_one f.fd ≡ false) where
  close-empty :
      o ≡ 0
      → file_close answers answer (holding f b o l) out
        ≡ ends
            (record { ret = answer; file = record (holding f b o l) { fd = minus_one }; out = out })
  unfolding file_close
  close-empty e = ground (arith, valid, e)

  close-drained :
      (r : Result)
      → o ≢ 0
      → drain answers (holding f b o l) out ≡ ends r
      → file_close answers answer (holding f b o l) out
        ≡ ends (record { ret = answer; file = record (r.file) { fd = minus_one }; out = r.out })
  unfolding file_close
  close-drained r ne e = rw (valid, some_left, e) refl
    where
      some_left : (o == 0) ≡ false
      some_left = ground (arith, ne)

  close-Closed :
      f.is_direct_io ≡ true
      → length b ≡ f.wrbuf_size
      → o ≤ f.wrbuf_size
      → Drains o answers
      → Closed (file_close answers answer (holding f b o l) out) answer (out ++ take o b)
  close-Closed direct long within v = elim (ℕ_discrete o 0) [
    | yes e ↦ record {
      file = record (holding f b o l) { fd = minus_one };
      is =
          close-empty e
          ∙ ap
              (λ xs. ends (record {
                ret = answer;
                file = record (holding f b o l) { fd = minus_one };
                out = xs;
              }))
              (sym (nil_append out) ∙ ap (λ n. out ++ take n b) (sym e));
      gone = refl;
    }
    | no ne ↦
        (let w = drain-Drained answers f b o l out direct long within v in
          let r : Result = record { ret = w.ret; file = w.file; out = out ++ take o b } in
          record {
            file = record (w.file) { fd = minus_one };
            is = close-drained r ne w.is;
            gone = refl;
          })
  ]

-- How much stands in the buffer after a call.
abbrev pub offset_after : Outcome → ℕ
offset_after (ends r) = r.file.wrbuf_offset
offset_after waits = 0
offset_after fault = 0

-- `qp_file_write` of bytes to an open file with a buffer, and then `qp_file_close`, where each answer of the kernel
-- takes at least half of what it is given, there are enough answers for the write, one more than there
-- are bytes being so, those for the closing take all that is left, and the bytes and the buffer are together
-- fewer than 2 ^ 64: the write returns, the file is closed, `qp_file_close` returns what
-- `close` does, and the kernel has, behind what it had, what stood in the buffer before the write and
-- then the bytes, all in order.
pub file_close-write :
    (answers answers' : List ℤ) (aio answer : ℤ) (bytes : List ℕ) (f : FileInfo) (out : List ℕ)
    → IsFile f
    → is_minus_one f.fd ≡ false
    → All (Takes f.wrbuf_size) answers
    → length bytes + f.wrbuf_offset < length answers + f.wrbuf_size
    → length bytes + f.wrbuf_size < 2 ^ 64
    → Drains (offset_after (write answers aio (some bytes) f out)) answers'
    → (r : Result) × (write answers aio (some bytes) f out ≡ ends r)
      × Closed (file_close answers' answer r.file r.out) answer (out ++ (pending f ++ bytes))
file_close-write answers answers' aio answer bytes f out v valid takes enough small drains =
    let w = write-Written answers aio bytes f out v takes enough small in
    let r : Result = record {
      ret = pos w.n;
      file = holding f w.buf w.offset w.last;
      out = w.taken;
    } in
    let left : Drains w.offset answers' =
      subst (λ o. Drains (offset_after o) answers') w.is drains in
    (
      r,
      w.is,
      subst (Closed (file_close answers' answer r.file r.out) answer) w.all (
          close-Closed answers' answer f w.buf w.offset w.last w.taken valid v.direct w.long
            (omega (arith, w.within)) left),
    )
