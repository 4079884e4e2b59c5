-- ===== src/File/Written.antt =====
-- The loop of `qp_file_write`, src/qp_file.c.
use qphi.Common.{
  ℕ, ◌+◌, ◌-◌, ◌^◌, ◌<◌, ◌≤◌, ◌≡◌, ◌∙◌, sym, ap, subst, true, List, [], ◌∷◌, All, take, drop, some,
  length, length-drop, arith, ℤ, u64, ℕ_discrete, dec_lt,
}
use qphi.File.{FileInfo, write_loop, write}
use qphi.File.Write.{holding, write_loop-done, write_loop-more}
use qphi.File.Turned.{
  IsFile, held, pending, Takes, Written, Written-put, turn, after, Written-done, Written-more,
}

pub write_loop-Written :
    (answers : List ℤ) (total : ℕ) (bytes : List ℕ) (f : FileInfo) (b : List ℕ) (o l : ℕ)
    (out : List ℕ)
    → f.is_direct_io ≡ true
    → length b ≡ f.wrbuf_size
    → o ≤ f.wrbuf_size
    → All (Takes f.wrbuf_size) answers
    → length bytes + o < length answers + f.wrbuf_size
    → length bytes + f.wrbuf_size < 2 ^ 64
    → length bytes ≤ total
    → Written (write_loop answers total bytes (holding f b o l) out) total f (take o b) bytes out
write_loop-Written [] total bytes f b o l out direct long within takes enough small most =
    Written-put [] total bytes f b o l out long (omega (arith, enough)) small most
write_loop-Written (a ∷ answers) total bytes f b o l out direct long within takes enough small
      most =
    elim (dec_lt (o + length bytes) f.wrbuf_size) [
      | yes fits ↦ Written-put (a ∷ answers) total bytes f b o l out long fits small most
      | no over ↦
          (let le : f.wrbuf_size ≤ o + length bytes = omega (arith, over) in
            let not_fits : f.wrbuf_size ≤ u64 (o + length bytes) =
              omega (arith, within, small, le) in
            let w = turn a bytes f b o l out direct long within takes.0 le in
            elim (ℕ_discrete (length (drop (f.wrbuf_size - o) bytes)) 0) [
              | yes e ↦ Written-done answers total bytes a f b o l out w e within le (
                  write_loop-done total bytes (holding f b o l) out a answers
                    (holding f w.filling (f.wrbuf_size - o) o) (after a f b bytes o l out w)
                    not_fits w.filled w.went e)
              | no ne ↦
                  Written-more answers total bytes a f b o l out w
                    (write_loop-more total bytes (holding f b o l) out a answers
                      (holding f w.filling (f.wrbuf_size - o) o) (after a f b bytes o l out w)
                      not_fits w.filled w.went ne w.positive)
                    (write_loop-Written answers total (drop (f.wrbuf_size - o) bytes) f w.buf
                      w.offset f.wrbuf_size w.taken direct w.long (omega (arith, w.within)) takes.1
                      (omega
                        (arith, length-drop (f.wrbuf_size - o) bytes, enough, within, w.within, le))
                      (omega (arith, length-drop (f.wrbuf_size - o) bytes, small))
                      (omega (arith, length-drop (f.wrbuf_size - o) bytes, most)))
            ])
    ]

pub written_named :
    (f : FileInfo) (v : IsFile f) → f ≡ holding f v.buf f.wrbuf_offset f.wrbuf_offsetlast
written_named f v = ap (λ w. record f { wrbuf = w }) v.buf_is

pub write-direct :
    (answers : List ℤ) (aio : ℤ) (bytes : List ℕ) (f : FileInfo) (out : List ℕ)
    → f.is_inited ≡ true
    → f.is_direct_io ≡ true
    → write answers aio (some bytes) f out ≡ write_loop answers (length bytes) bytes f out
unfolding write
write-direct answers aio bytes f out e d = ground (arith, e, d)

-- `qp_file_write` of bytes to a file with a buffer, where each answer of the kernel takes at least half of the
-- buffer, there are enough answers, one more than there are bytes being so, and the bytes and the buffer are
-- together fewer than 2 ^ 64: it makes no undefined copy and returns a length, of at most that of the bytes. What the kernel has then taken and what stands
-- in the buffer are, in order, what it had taken, what stood in the buffer and the new bytes.
pub write-Written :
    (answers : List ℤ) (aio : ℤ) (bytes : List ℕ) (f : FileInfo) (out : List ℕ)
    → IsFile f
    → All (Takes f.wrbuf_size) answers
    → length bytes + f.wrbuf_offset < length answers + f.wrbuf_size
    → length bytes + f.wrbuf_size < 2 ^ 64
    → Written (write answers aio (some bytes) f out) (length bytes) f (pending f) bytes out
write-Written answers aio bytes f out v takes enough small =
    subst (λ w. Written w (length bytes) f (pending f) bytes out)
      (sym (
        write-direct answers aio bytes f out v.inited v.direct
        ∙ ap (λ g. write_loop answers (length bytes) bytes g out) (written_named f v)))
      (subst
        (λ old.
          Written
            (write_loop answers (length bytes) bytes
              (holding f v.buf f.wrbuf_offset f.wrbuf_offsetlast) out)
            (length bytes) f old bytes out)
        (sym (ap (λ w. held w f.wrbuf_offset) v.buf_is))
        (write_loop-Written answers (length bytes) bytes f v.buf f.wrbuf_offset f.wrbuf_offsetlast
          out v.direct v.long v.within takes enough small (omega arith)))
