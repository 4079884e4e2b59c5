-- ===== src/File/Safe.antt =====
-- What `qp_file_write` of src/qp_file.c leaves, whatever the kernel answers.
use qphi.Common.{
  ◌⊎◌, inl, inr, Option, none, ℕ, zero, suc, ◌+◌, ◌-◌, ◌^◌, ◌<◌, ◌≤◌, ◌≡◌, ◌≢◌, refl, ◌∙◌, sym, ap,
  subst, true, false, List, [], ◌∷◌, ◌++◌, some, All, take, drop, length, length-append,
  length-drop, arith, ℤ, pos, negsuc, pos_part, u64, ltb, ◌==◌, dec_lt, ℕ_discrete,
}
use qphi.File.{
  FileInfo, Result, Outcome, ends, waits, fault, write_loop, write, fill, flush, flushed, shift,
  source,
}
use qphi.File.Buffer.{length-take, shift-overlap}
use qphi.File.Write.{holding, fill-is, flush-direct, write_loop-done, write_loop-more}
use qphi.File.Turned.{IsFile, Turned, turn, after, Written-put}
use qphi.File.Written.{written_named, write-direct}

-- The call is over or still waits, and the file still has a buffer of its size with the offset in it; or the
-- call has made an undefined copy, for which there is the `excuse`.
abbrev pub Safe : FileInfo → (excuse : Type 0) → Outcome → Type 0
Safe f excuse fault = excuse
Safe f excuse waits = Unit
Safe f excuse (ends r) =
    ((buf : List ℕ) × (r.file.wrbuf ≡ some buf) × (length buf ≡ f.wrbuf_size))
    × (r.file.wrbuf_offset ≤ f.wrbuf_size)
    × (r.file.wrbuf_size ≡ f.wrbuf_size)

-- The kernel takes no more than it is given.
abbrev pub Honest : (size : ℕ) → ℤ → Type 0
Honest size a = pos_part a ≤ size

-- An answer that takes some bytes, but less than half of them.
abbrev pub Short : (size : ℕ) → ℤ → Type 0
Short size a = (k : ℕ) × (a ≡ pos (suc k)) × (suc k + suc k < size)

abbrev pub SomeShort : (size : ℕ) → List ℤ → Type 0
SomeShort size [] = ⊥
SomeShort size (a ∷ answers) = Short size a ⊎ SomeShort size answers

write_loop-stop :
    (total : ℕ) (bytes : List ℕ) (f : FileInfo) (out : List ℕ) (a : ℤ) (answers : List ℤ)
    (f1 : FileInfo) (r : Result)
    → f.wrbuf_size ≤ u64 (f.wrbuf_offset + length bytes)
    → fill bytes f ≡ some f1
    → flush a true f1 out ≡ ends r
    → pos_part r.ret ≡ 0
    → length (drop f1.wrbuf_offset bytes) ≢ 0
    → write_loop (a ∷ answers) total bytes f out ≡ ends r
unfolding write_loop
write_loop-stop total bytes f out a answers f1 r full filled went none_taken ne =
    rw (write_loop, not_fits, filled, went, is_more, stops) refl
  where
    not_fits : ltb (u64 (f.wrbuf_offset + length bytes)) f.wrbuf_size ≡ false
    not_fits = ground (arith, full)

    is_more : (length (drop f1.wrbuf_offset bytes) == 0) ≡ false
    is_more = ground (arith, ne)

    stops : ltb 0 (pos_part r.ret) ≡ false
    stops = ground (arith, none_taken)

module _ (excuse : Type 0) (total : ℕ) (bytes : List ℕ) (f : FileInfo) (b : List ℕ) (o l : ℕ)
    (out : List ℕ) (long : length b ≡ f.wrbuf_size) (within : o ≤ f.wrbuf_size)
    (full : f.wrbuf_size ≤ o + length bytes) (small : length bytes + f.wrbuf_size < 2 ^ 64) where
  -- The kernel takes nothing.
  Safe-stop :
      (a : ℤ) (answers : List ℤ) (out' : List ℕ)
      → pos_part a ≡ 0
      → (let room = f.wrbuf_size - o in
          let b1 = take o b ++ take room bytes in
          flush a true (holding f b1 room o) out
          ≡ ends (record { ret = a; file = holding f b1 room f.wrbuf_size; out = out' }))
      → Safe f excuse (write_loop (a ∷ answers) total bytes (holding f b o l) out)
  Safe-stop a answers out' none_taken went =
      let room = f.wrbuf_size - o in
      let b1 = take o b ++ take room bytes in
      let r : Result = record { ret = a; file = holding f b1 room f.wrbuf_size; out = out' } in
      let wrapped : f.wrbuf_size ≤ u64 (o + length bytes) = omega (arith, within, full, small) in
      let filled = fill-is bytes f b o l within long full in
      let size : length b1 ≡ f.wrbuf_size = omega (
        arith,
        length-append (take o b) (take room bytes),
        length-take o b (omega (arith, within, long)),
        length-take room bytes (omega (arith, full)),
        within,
      ) in
      let left : Safe f excuse (ends r) = ((b1, refl, size), omega arith, refl) in
      elim (ℕ_discrete (length (drop room bytes)) 0) [
        | yes e ↦
            subst (Safe f excuse)
              (sym (
                write_loop-done total bytes (holding f b o l) out a answers (holding f b1 room o) r
                  wrapped filled went e))
              left
        | no ne ↦
            subst (Safe f excuse)
              (sym (
                write_loop-stop total bytes (holding f b o l) out a answers (holding f b1 room o) r
                  wrapped filled went none_taken ne))
              left
      ]

Safe-put :
    (excuse : Type 0) (answers : List ℤ) (total : ℕ) (bytes : List ℕ) (f : FileInfo) (b : List ℕ)
    (o l : ℕ) (out : List ℕ)
    → length b ≡ f.wrbuf_size
    → o + length bytes < f.wrbuf_size
    → length bytes + f.wrbuf_size < 2 ^ 64
    → length bytes ≤ total
    → Safe f excuse (write_loop answers total bytes (holding f b o l) out)
Safe-put excuse answers total bytes f b o l out long fits small most =
    let w = Written-put answers total bytes f b o l out long fits small most in
    subst (Safe f excuse) (sym w.is) ((w.buf, refl, w.long), omega (arith, w.within), refl)

flush-none :
    (f : FileInfo) (b : List ℕ) (o l : ℕ) (out : List ℕ)
    → f.is_direct_io ≡ true
    → flush (pos 0) true (holding f b o l) out
      ≡ ends (record { ret = pos 0; file = holding f b o f.wrbuf_size; out = out ++ [] })
unfolding flushed
flush-none f b o l out direct = flush-direct (pos 0) true f b o l out direct

flush-failed :
    (n : ℕ) (f : FileInfo) (b : List ℕ) (o l : ℕ) (out : List ℕ)
    → f.is_direct_io ≡ true
    → flush (negsuc n) true (holding f b o l) out
      ≡ ends (record { ret = negsuc n; file = holding f b o f.wrbuf_size; out = out ++ [] })
unfolding flushed
flush-failed n f b o l out direct = flush-direct (negsuc n) true f b o l out direct

flushed-overlap :
    (k : ℕ) (f : FileInfo) (out : List ℕ)
    → shift (suc k) f ≡ none
    → flushed (pos (suc k)) f out ≡ fault
unfolding flushed
flushed-overlap k f out e = rw (flushed, e) refl

flush-overlap :
    (k : ℕ) (f : FileInfo) (b : List ℕ) (o l : ℕ) (out : List ℕ)
    → f.is_direct_io ≡ true
    → suc k + suc k < f.wrbuf_size
    → flush (pos (suc k)) true (holding f b o l) out ≡ fault
flush-overlap k f b o l out direct short =
    flush-direct (pos (suc k)) true f b o l out direct
    ∙ flushed-overlap k (holding f b o f.wrbuf_size) (out ++ take (suc k) (take f.wrbuf_size b))
        (shift-overlap (suc k) (holding f b o l) b f.wrbuf_size short)

write_loop-overlap :
    (total : ℕ) (bytes : List ℕ) (f : FileInfo) (out : List ℕ) (a : ℤ) (answers : List ℤ)
    (f1 : FileInfo)
    → f.wrbuf_size ≤ u64 (f.wrbuf_offset + length bytes)
    → fill bytes f ≡ some f1
    → flush a true f1 out ≡ fault
    → write_loop (a ∷ answers) total bytes f out ≡ fault
unfolding write_loop
write_loop-overlap total bytes f out a answers f1 full filled went =
    rw (write_loop, not_fits, filled, went) refl
  where
    not_fits : ltb (u64 (f.wrbuf_offset + length bytes)) f.wrbuf_size ≡ false
    not_fits = ground (arith, full)

write_loop-over :
    (total : ℕ) (bytes : List ℕ) (f : FileInfo) (out : List ℕ) (f1 : FileInfo)
    → f.wrbuf_size ≤ u64 (f.wrbuf_offset + length bytes)
    → fill bytes f ≡ some f1
    → write_loop [] total bytes f out ≡ waits
unfolding write_loop
write_loop-over total bytes f out f1 full filled = rw (write_loop, not_fits, filled) refl
  where
    not_fits : ltb (u64 (f.wrbuf_offset + length bytes)) f.wrbuf_size ≡ false
    not_fits = ground (arith, full)

-- The kernel takes half of the buffer at least.
Safe-turn :
    (excuse : Type 0) (k : ℕ) (answers : List ℤ) (total : ℕ) (bytes : List ℕ) (f : FileInfo)
    (b : List ℕ) (o l : ℕ) (out : List ℕ)
    → f.wrbuf_size ≤ u64 (o + length bytes)
    → (w : Turned (pos (suc k)) f b bytes o l out)
    → ((w : Turned (pos (suc k)) f b bytes o l out)
        → Safe f excuse (
            write_loop answers total
              (drop (f.wrbuf_size - o) bytes)
              (holding f w.buf w.offset f.wrbuf_size)
              w.taken))
    → Safe f excuse (write_loop (pos (suc k) ∷ answers) total bytes (holding f b o l) out)
Safe-turn excuse k answers total bytes f b o l out wrapped w next =
    let a = pos (suc k) in
    let room = f.wrbuf_size - o in
    let r = after a f b bytes o l out w in
    elim (ℕ_discrete (length (drop room bytes)) 0) [
      | yes e ↦
          subst (Safe f excuse)
            (sym (
              write_loop-done total bytes (holding f b o l) out a answers
                (holding f w.filling room o) r wrapped w.filled w.went e))
            ((w.buf, refl, w.long), omega (arith, w.within), refl)
      | no ne ↦
          subst (Safe f excuse)
            (sym (
              write_loop-more total bytes (holding f b o l) out a answers
                (holding f w.filling room o) r wrapped w.filled w.went ne w.positive))
            (next w)
    ]

-- A round with a full buffer, and what the rounds behind it leave.
Safe-round :
    (excuse : Type 0) (a : ℤ) (answers : List ℤ) (total : ℕ) (bytes : List ℕ) (f : FileInfo)
    (b : List ℕ) (o l : ℕ) (out : List ℕ)
    → f.is_direct_io ≡ true
    → length b ≡ f.wrbuf_size
    → o ≤ f.wrbuf_size
    → Honest f.wrbuf_size a
    → length bytes + f.wrbuf_size < 2 ^ 64
    → f.wrbuf_size ≤ o + length bytes
    → (Short f.wrbuf_size a → excuse)
    → ((w : Turned a f b bytes o l out)
        → Safe f excuse (
            write_loop answers total
              (drop (f.wrbuf_size - o) bytes)
              (holding f w.buf w.offset f.wrbuf_size)
              w.taken))
    → Safe f excuse (write_loop (a ∷ answers) total bytes (holding f b o l) out)
Safe-round excuse (pos zero) answers total bytes f b o l out direct long within honest small le
      short next =
    Safe-stop excuse total bytes f b o l out long within le small (pos zero) answers (out ++ [])
      refl
      (flush-none f (take o b ++ take (f.wrbuf_size - o) bytes) (f.wrbuf_size - o) o out direct)
Safe-round excuse (negsuc n) answers total bytes f b o l out direct long within honest small le
      short next =
    Safe-stop excuse total bytes f b o l out long within le small (negsuc n) answers (out ++ [])
      refl
      (flush-failed n f (take o b ++ take (f.wrbuf_size - o) bytes) (f.wrbuf_size - o) o out direct)
Safe-round excuse (pos (suc k)) answers total bytes f b o l out direct long within honest small le
      short next =
    let room = f.wrbuf_size - o in
    let filling = take o b ++ take room bytes in
    let wrapped : f.wrbuf_size ≤ u64 (o + length bytes) = omega (arith, within, le, small) in
    elim (dec_lt (suc k + suc k) f.wrbuf_size) [
      | yes less ↦
          subst (Safe f excuse)
            (sym (
              write_loop-overlap total bytes (holding f b o l) out (pos (suc k)) answers
                (holding f filling room o) wrapped (fill-is bytes f b o l within long le)
                (flush-overlap k f filling room o out direct less)))
            (short (k, refl, less))
      | no half ↦
          Safe-turn excuse k answers total bytes f b o l out wrapped
            (turn (pos (suc k)) bytes f b o l out direct long within
              (k, refl, honest, omega (arith, half)) le)
            next
    ]

write_loop-Safe :
    (excuse : Type 0) (answers : List ℤ) (total : ℕ) (bytes : List ℕ) (f : FileInfo) (b : List ℕ)
    (o l : ℕ) (out : List ℕ)
    → f.is_direct_io ≡ true
    → length b ≡ f.wrbuf_size
    → o ≤ f.wrbuf_size
    → All (Honest f.wrbuf_size) answers
    → length bytes + f.wrbuf_size < 2 ^ 64
    → length bytes ≤ total
    → (SomeShort f.wrbuf_size answers → excuse)
    → Safe f excuse (write_loop answers total bytes (holding f b o l) out)
write_loop-Safe excuse [] total bytes f b o l out direct long within honest small most short =
    elim (dec_lt (o + length bytes) f.wrbuf_size) [
      | yes fits ↦ Safe-put excuse [] total bytes f b o l out long fits small most
      | no over ↦
          subst (Safe f excuse)
            (sym (
              write_loop-over total bytes (holding f b o l) out
                (holding f (take o b ++ take (f.wrbuf_size - o) bytes) (f.wrbuf_size - o) o)
                (omega (arith, within, over, small))
                (fill-is bytes f b o l within long (omega (arith, over)))))
            tt
    ]
write_loop-Safe excuse (a ∷ answers) total bytes f b o l out direct long within honest small most
      short =
    elim (dec_lt (o + length bytes) f.wrbuf_size) [
      | yes fits ↦ Safe-put excuse (a ∷ answers) total bytes f b o l out long fits small most
      | no over ↦
          Safe-round excuse a answers total bytes f b o l out direct long within honest.0 small
            (omega (arith, over)) (λ v. short (inl v))
            (λ w.
              write_loop-Safe excuse answers total (drop (f.wrbuf_size - o) bytes) f w.buf w.offset
                f.wrbuf_size w.taken direct w.long (omega (arith, w.within)) honest.1
                (omega (arith, length-drop (f.wrbuf_size - o) bytes, small))
                (omega (arith, length-drop (f.wrbuf_size - o) bytes, most)) (λ v. short (inr v)))
    ]

-- What makes an undefined copy in a write: NULL for the bytes, or a short answer.
abbrev pub Excuse : FileInfo → Option (List ℕ) → List ℤ → Type 0
Excuse f vptr answers = (vptr ≡ none) ⊎ SomeShort f.wrbuf_size answers

write-null :
    (answers : List ℤ) (aio : ℤ) (f : FileInfo) (out : List ℕ)
    → f.is_inited ≡ true
    → f.is_direct_io ≡ true
    → write answers aio none f out ≡ fault
unfolding write
write-null answers aio f out e d = ground (arith, e, d)

-- `qp_file_write` to a file with a buffer, whatever the kernel answers, errors and short writes included, if
-- it takes no more than it is given, and the bytes and the buffer are together fewer than 2 ^ 64. When the call returns the file has a buffer of the old size, with the
-- offset inside it or at its end. An undefined copy is made only where the bytes are NULL or the kernel, in
-- some answer, takes some bytes but less than half of the buffer; where they are NULL it is made.
pub write-Safe :
    (answers : List ℤ) (aio : ℤ) (vptr : Option (List ℕ)) (f : FileInfo) (out : List ℕ)
    → IsFile f
    → All (Honest f.wrbuf_size) answers
    → length (source vptr) + f.wrbuf_size < 2 ^ 64
    → Safe f (Excuse f vptr answers) (write answers aio vptr f out)
      × ((vptr ≢ none) ⊎ (write answers aio vptr f out ≡ fault))
write-Safe answers aio none f out v honest small =
    let e = write-null answers aio f out v.inited v.direct in
    (subst (Safe f (Excuse f none answers)) (sym e) (inl refl), inr e)
write-Safe answers aio (some bytes) f out v honest small = (
  subst (Safe f (Excuse f (some bytes) answers))
      (sym (
        write-direct answers aio bytes f out v.inited v.direct
        ∙ ap (λ g. write_loop answers (length bytes) bytes g out) (written_named f v)))
      (write_loop-Safe (Excuse f (some bytes) answers) answers (length bytes) bytes f v.buf
        f.wrbuf_offset f.wrbuf_offsetlast out v.direct v.long v.within honest small (omega arith)
        (λ w. inr w)),
  inl (not_none bytes),
)
  where
    not_none : (bytes : List ℕ) → some bytes ≢ none
    not_none bytes e = ground arith
