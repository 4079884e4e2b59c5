-- ===== src/File/Write.antt =====
-- The steps of `qp_file_flush` and `qp_file_write`, src/qp_file.c.
use qphi.Common.{
  ℕ, suc, ◌+◌, ◌-◌, ◌<◌, ◌≤◌, ◌≡◌, ◌≢◌, refl, ◌∙◌, sym, ap, Bool, true, false, List, [], ◌∷◌, ◌++◌,
  some, ◌==◌, take, drop, length, arith, ℤ, pos, ltb, u64, if◌then◌else◌, pos_part,
}
use qphi.File.{FileInfo, Result, Outcome, ends, shift, flushed, flush, put, fill, write_loop, minus}
use qphi.File.Buffer.{
  length-take, drop_all, nil_append, minus-le, peek-in, poke-in, shift-Shifted, with_buffer,
}

-- The file with its write buffer named.
abbrev pub holding : FileInfo → (b : List ℕ) → (offset last : ℕ) → FileInfo
holding f b o last = record f { wrbuf = some b; wrbuf_offset = o; wrbuf_offsetlast = last }

-- What the kernel does not take stays, in its order.
pub record Flushed (outcome : Outcome) (f : FileInfo) (b : List ℕ) (last k : ℕ) (out : List ℕ)
    : Type 0 where
  pub buf : List ℕ
  pub ret : ℤ
  pub is :
      outcome
      ≡ ends (record {
        ret = ret;
        file = holding f buf (last - k) last;
        out = out ++ take k (take last b);
      })
  pub positive : 0 < pos_part ret
  pub long : length buf ≡ length b
  pub held : take (last - k) buf ≡ drop k (take last b)

if_true : {A : Type 0} (b : Bool) (x y : A) → b ≡ true → (if b then x else y) ≡ x
if_true true x y e = refl
if_true false x y e = absurd (clash e)
  where
    clash : false ≡ true → ⊥
    clash e = ground arith

flushed-some :
    (k : ℕ) (f file : FileInfo) (out : List ℕ)
    → shift (suc k) f ≡ some file
    → flushed (pos (suc k)) f out
      ≡ ends
          (record { ret = pos (minus file.wrbuf_size file.wrbuf_offset); file = file; out = out })
unfolding flushed
flushed-some k f file out e = rw (flushed, e) refl

-- The call of `write`.
pub flush-direct :
    (a : ℤ) (full : Bool) (f : FileInfo) (b : List ℕ) (o l : ℕ) (out : List ℕ)
    → f.is_direct_io ≡ true
    → flush a full (holding f b o l) out ≡ (
        let last = if full then f.wrbuf_size else o in
        flushed a (holding f b o last) (out ++ take (pos_part a) (take last b)))
unfolding flush
flush-direct a full f b o l out direct =
    let last = if full then f.wrbuf_size else o in
    if_true f.is_direct_io (flushed a (holding f b o last) (out ++ take (pos_part a) (take last b)))
      (flushed (pos 0) (holding f b o last) out) direct

flush-is :
    (k last : ℕ) (full : Bool) (f : FileInfo) (b : List ℕ) (o l : ℕ) (out : List ℕ)
    (file : FileInfo)
    → f.is_direct_io ≡ true
    → last ≡ (if full then f.wrbuf_size else o)
    → shift (suc k) (with_buffer (holding f b o l) b last) ≡ some file
    → flush (pos (suc k)) full (holding f b o l) out
      ≡ ends (record {
        ret = pos (minus file.wrbuf_size file.wrbuf_offset);
        file = file;
        out = out ++ take (suc k) (take last b);
      })
flush-is k last full f b o l out file direct e shifted =
    flush-direct (pos (suc k)) full f b o l out direct
    ∙ ap (λ n. flushed (pos (suc k)) (holding f b o n) (out ++ take (suc k) (take n b))) (sym e)
    ∙ flushed-some k (holding f b o last) file (out ++ take (suc k) (take last b)) shifted

pub flush-Flushed :
    (k last : ℕ) (full : Bool) (f : FileInfo) (b : List ℕ) (o l : ℕ) (out : List ℕ)
    → f.is_direct_io ≡ true
    → last ≡ (if full then f.wrbuf_size else o)
    → length b ≡ f.wrbuf_size
    → suc k ≤ last
    → last ≤ suc k + suc k
    → last ≤ length b
    → Flushed (flush (pos (suc k)) full (holding f b o l) out) f b last (suc k) out
flush-Flushed k last full f b o l out direct e long le half fits =
    let w = shift-Shifted (suc k) (holding f b o l) b last le half fits in
    record {
      buf = w.buf;
      ret = pos (minus f.wrbuf_size (last - suc k));
      is = flush-is k last full f b o l out (holding f w.buf (last - suc k) last) direct e w.is;
      positive =
          omega (
            arith,
            minus-le f.wrbuf_size (last - suc k) (omega (arith, fits, long)),
            le,
            fits,
            long,
          );
      long = w.long;
      held = w.held;
    }

-- Bytes that fit are put behind those that are there.
pub put-is :
    (bytes : List ℕ) (f : FileInfo) (b : List ℕ) (o l : ℕ) (out : List ℕ)
    → o + length bytes ≤ length b
    → put bytes (holding f b o l) out
      ≡ ends (record {
        ret = pos (length bytes);
        file =
            holding f (take o b ++ (bytes ++ drop (o + length bytes) b)) (u64 (o + length bytes)) o;
        out = out;
      })
unfolding put
put-is bytes f b o l out le = rw (put, poke-in b o bytes le) refl

-- Otherwise the buffer is filled.
pub fill-is :
    (bytes : List ℕ) (f : FileInfo) (b : List ℕ) (o l : ℕ)
    → o ≤ f.wrbuf_size
    → length b ≡ f.wrbuf_size
    → f.wrbuf_size ≤ o + length bytes
    → fill bytes (holding f b o l)
      ≡ some (holding f (take o b ++ take (f.wrbuf_size - o) bytes) (f.wrbuf_size - o) o)
unfolding fill
fill-is bytes f b o l within long le =
    let room = f.wrbuf_size - o in
    let size : length (take room bytes) ≡ room =
      length-take room bytes (omega (arith, within, le)) in
    let none_behind : drop (o + length (take room bytes)) b ≡ [] =
      drop_all (o + length (take room bytes)) b (omega (arith, size, long, within)) in
    rw
      (
        fill,
        minus-le f.wrbuf_size o within,
        peek-in bytes 0 room (omega (arith, within, le)),
        poke-in b o (take room bytes) (omega (arith, size, long, within)),
      )
      (ap
          (λ v. some (
            holding f (take o b ++ (take room bytes ++ drop (o + length (take room bytes)) b)) v o))
          (minus-le f.wrbuf_size o within)
        ∙ ap (λ xs. some (holding f (take o b ++ (take room bytes ++ xs)) room o)) none_behind
        ∙ ap (λ xs. some (holding f (take o b ++ xs) room o)) (nil_append (take room bytes)))

module _ (total : ℕ) (bytes : List ℕ) (f : FileInfo) (out : List ℕ) where
  pub write_loop-put :
      (answers : List ℤ)
      → u64 (f.wrbuf_offset + length bytes) < f.wrbuf_size
      → write_loop answers total bytes f out ≡ put bytes f out
  unfolding write_loop
  write_loop-put [] fits = ground (arith, fits)
  write_loop-put (a ∷ answers) fits = ground (arith, fits)

  module _ (a : ℤ) (answers : List ℤ) (f1 : FileInfo) (r : Result)
      (full : f.wrbuf_size ≤ u64 (f.wrbuf_offset + length bytes)) (filled : fill bytes f ≡ some f1)
      (went : flush a true f1 out ≡ ends r) where
    pub write_loop-done :
        length (drop f1.wrbuf_offset bytes) ≡ 0
        → write_loop (a ∷ answers) total bytes f out ≡ ends (record r { ret = pos total })
    unfolding write_loop
    write_loop-done e = rw (not_fits, filled, went, is_empty) refl
      where
        not_fits : ltb (u64 (f.wrbuf_offset + length bytes)) f.wrbuf_size ≡ false
        not_fits = ground (arith, full)

        is_empty : (length (drop f1.wrbuf_offset bytes) == 0) ≡ true
        is_empty = ground (arith, e)

    pub write_loop-more :
        length (drop f1.wrbuf_offset bytes) ≢ 0
        → 0 < pos_part r.ret
        → write_loop (a ∷ answers) total bytes f out
          ≡ write_loop answers total (drop f1.wrbuf_offset bytes) r.file r.out
    unfolding write_loop
    write_loop-more ne up = rw (not_fits, filled, went, is_more, goes_on) refl
      where
        not_fits : ltb (u64 (f.wrbuf_offset + length bytes)) f.wrbuf_size ≡ false
        not_fits = ground (arith, full)

        is_more : (length (drop f1.wrbuf_offset bytes) == 0) ≡ false
        is_more = ground (arith, ne)

        goes_on : ltb 0 (pos_part r.ret) ≡ true
        goes_on = ground (arith, up)
