-- ===== src/File/Turned.antt =====
-- What `qp_file_write` of src/qp_file.c delivers.
use qphi.Common.{
  ℕ, suc, ◌+◌, ◌-◌, ◌^◌, ◌<◌, ◌≤◌, ◌≡◌, refl, ◌∙◌, sym, ap, true, List, [], ◌∷◌, ◌++◌, Option, none,
  some, take, drop, length, length-append, length-drop, arith, ℤ, pos, pos_part, u64,
}
use qphi.File.{FileInfo, Result, Outcome, ends, write_loop, fill, flush}
use qphi.File.Buffer.{length-take, take-drop, take_front, take_all, append_assoc}
use qphi.File.Write.{holding, flush-Flushed, put-is, fill-is, write_loop-put}

-- A file with a buffer of `size` bytes that has been initialised.
pub record IsFile (f : FileInfo) : Type 0 where
  pub buf : List ℕ
  pub buf_is : f.wrbuf ≡ some buf
  pub long : length buf ≡ f.wrbuf_size
  pub within : f.wrbuf_offset ≤ f.wrbuf_size
  pub direct : f.is_direct_io ≡ true
  pub inited : f.is_inited ≡ true

-- The first `n` bytes of a buffer.
abbrev pub held : Option (List ℕ) → ℕ → List ℕ
held none n = []
held (some buf) n = take n buf

-- The bytes that the file has accepted and the kernel has not taken.
abbrev pub pending : FileInfo → List ℕ
pending f = held f.wrbuf f.wrbuf_offset

-- An answer of the kernel that takes half of the buffer at least, and no more than it was given.
abbrev pub Takes : (size : ℕ) → ℤ → Type 0
Takes size a = (k : ℕ) × (a ≡ pos (suc k)) × (suc k ≤ size) × (size ≤ suc k + suc k)

-- The write returned a length, and no byte is lost, or in another order.
pub record Written (outcome : Outcome) (total : ℕ) (f : FileInfo) (old bytes out : List ℕ)
    : Type 0 where
  pub n : ℕ
  pub buf : List ℕ
  pub offset : ℕ
  pub last : ℕ
  pub taken : List ℕ
  pub is : outcome ≡ ends (record { ret = pos n; file = holding f buf offset last; out = taken })
  pub long : length buf ≡ f.wrbuf_size
  pub within : offset < f.wrbuf_size
  pub bounded : n ≤ total
  pub all : taken ++ take offset buf ≡ out ++ (old ++ bytes)

-- The last bytes fit.
pub Written-put :
    (answers : List ℤ) (total : ℕ) (bytes : List ℕ) (f : FileInfo) (b : List ℕ) (o l : ℕ)
    (out : List ℕ)
    → length b ≡ f.wrbuf_size
    → o + length bytes < f.wrbuf_size
    → length bytes + f.wrbuf_size < 2 ^ 64
    → length bytes ≤ total
    → Written (write_loop answers total bytes (holding f b o l) out) total f (take o b) bytes out
Written-put answers total bytes f b o l out long fits small most =
    let whole : u64 (o + length bytes) ≡ o + length bytes = omega (arith, fits, small) in
    let size : length (take o b) ≡ o = length-take o b (omega (arith, long, fits)) in
    let behind = drop (o + length bytes) b in
    record {
      n = length bytes;
      buf = take o b ++ (bytes ++ behind);
      offset = o + length bytes;
      last = o;
      taken = out;
      is =
          write_loop-put total bytes (holding f b o l) out answers (omega (arith, whole, fits))
          ∙ put-is bytes f b o l out (omega (arith, long, fits))
          ∙ ap
              (λ n. ends (record {
                ret = pos (length bytes);
                file = holding f (take o b ++ (bytes ++ behind)) n o;
                out = out;
              }))
              whole;
      long = omega (
        arith,
        length-append (take o b) (bytes ++ behind),
        length-append bytes behind,
        length-drop (o + length bytes) b,
        size,
        long,
        fits,
      );
      within = fits;
      bounded = most;
      all =
          ap (λ xs. out ++ take (o + length bytes) xs) (sym (append_assoc (take o b) bytes behind))
          ∙ ap (λ xs. out ++ xs)
              (take_front (o + length bytes) (take o b ++ bytes) behind
                (omega (arith, length-append (take o b) bytes, size)));
    }

-- The whole buffer goes out, and what the kernel leaves comes to the front.
rest_lem :
    (out old part buf b1 : List ℕ) (k o size : ℕ)
    → b1 ≡ old ++ part
    → length b1 ≡ size
    → take o buf ≡ drop k (take size b1)
    → (out ++ take k (take size b1)) ++ take o buf ≡ out ++ (old ++ part)
rest_lem out old part buf b1 k o size e long h =
    ap (λ xs. (out ++ take k (take size b1)) ++ xs) h
    ∙ append_assoc out (take k (take size b1)) (drop k (take size b1))
    ∙ ap (λ xs. out ++ xs) (take-drop k (take size b1) ∙ take_all size b1 long ∙ e)

join :
    (out old part bytes rest out1 kept : List ℕ)
    → out1 ++ kept ≡ out ++ (old ++ part)
    → part ++ rest ≡ bytes
    → out1 ++ (kept ++ rest) ≡ out ++ (old ++ bytes)
join out old part bytes rest out1 kept e f =
    sym (append_assoc out1 kept rest)
    ∙ ap (λ xs. xs ++ rest) e
    ∙ append_assoc out (old ++ part) rest
    ∙ ap (λ xs. out ++ xs) (append_assoc old part rest ∙ ap (λ xs. old ++ xs) f)

-- A round in which the buffer becomes full.
pub record Turned (a : ℤ) (f : FileInfo) (b bytes : List ℕ) (o l : ℕ) (out : List ℕ) : Type 0 where
  pub filling : List ℕ
  pub ret : ℤ
  pub buf : List ℕ
  pub offset : ℕ
  pub taken : List ℕ
  pub filled : fill bytes (holding f b o l) ≡ some (holding f filling (f.wrbuf_size - o) o)
  pub went :
      flush a true (holding f filling (f.wrbuf_size - o) o) out
      ≡ ends (record { ret = ret; file = holding f buf offset f.wrbuf_size; out = taken })
  pub positive : 0 < pos_part ret
  pub long : length buf ≡ f.wrbuf_size
  pub within : offset < f.wrbuf_size
  pub kept : taken ++ take offset buf ≡ out ++ (take o b ++ take (f.wrbuf_size - o) bytes)

pub turn :
    (a : ℤ) (bytes : List ℕ) (f : FileInfo) (b : List ℕ) (o l : ℕ) (out : List ℕ)
    → f.is_direct_io ≡ true
    → length b ≡ f.wrbuf_size
    → o ≤ f.wrbuf_size
    → Takes f.wrbuf_size a
    → f.wrbuf_size ≤ o + length bytes
    → Turned a f b bytes o l out
turn a bytes f b o l out direct long within (k, a_is, k_le, half) le =
    let room = f.wrbuf_size - o in
    let b1 = take o b ++ take room bytes in
    let full : length b1 ≡ f.wrbuf_size = omega (
      arith,
      length-append (take o b) (take room bytes),
      length-take o b (omega (arith, within, long)),
      length-take room bytes (omega (arith, le)),
      within,
    ) in
    let w =
      flush-Flushed k f.wrbuf_size true f b1 room o out direct refl full k_le half
        (omega (arith, full)) in
    record {
      filling = b1;
      ret = w.ret;
      buf = w.buf;
      offset = f.wrbuf_size - suc k;
      taken = out ++ take (suc k) (take f.wrbuf_size b1);
      filled = fill-is bytes f b o l within long le;
      went = ap (λ a. flush a true (holding f b1 room o) out) a_is ∙ w.is;
      positive = w.positive;
      long = w.long ∙ full;
      within = omega (arith, k_le);
      kept =
          rest_lem out (take o b) (take room bytes) w.buf b1 (suc k) (f.wrbuf_size - suc k)
            f.wrbuf_size refl full w.held;
    }

abbrev pub after :
    (a : ℤ) (f : FileInfo) (b bytes : List ℕ) (o l : ℕ) (out : List ℕ)
    → Turned a f b bytes o l out
    → Result
after a f b bytes o l out w = record {
  ret = w.ret;
  file = holding f w.buf w.offset f.wrbuf_size;
  out = w.taken;
}

module _ (answers : List ℤ) (total : ℕ) (bytes : List ℕ) (a : ℤ) (f : FileInfo) (b : List ℕ)
    (o l : ℕ) (out : List ℕ) (w : Turned a f b bytes o l out) where
  pub Written-done :
      length (drop (f.wrbuf_size - o) bytes) ≡ 0
      → o ≤ f.wrbuf_size
      → f.wrbuf_size ≤ o + length bytes
      → write_loop (a ∷ answers) total bytes (holding f b o l) out
        ≡ ends (record (after a f b bytes o l out w) { ret = pos total })
      → Written
          (write_loop (a ∷ answers) total bytes (holding f b o l) out)
          total
          f
          (take o b)
          bytes
          out
  Written-done e within le is = record {
    n = total;
    buf = w.buf;
    offset = w.offset;
    last = f.wrbuf_size;
    taken = w.taken;
    is = is;
    long = w.long;
    within = w.within;
    bounded = omega arith;
    all =
        w.kept
        ∙ ap (λ xs. out ++ (take o b ++ xs))
            (take_all (f.wrbuf_size - o) bytes
              (omega (arith, length-drop (f.wrbuf_size - o) bytes, e, le, within)));
  }

  pub Written-more :
      write_loop (a ∷ answers) total bytes (holding f b o l) out
        ≡ write_loop answers total
            (drop (f.wrbuf_size - o) bytes)
            (holding f w.buf w.offset f.wrbuf_size)
            w.taken
      → Written
          (write_loop answers total
            (drop (f.wrbuf_size - o) bytes)
            (holding f w.buf w.offset f.wrbuf_size)
            w.taken)
          total
          f
          (take w.offset w.buf)
          (drop (f.wrbuf_size - o) bytes)
          w.taken
      → Written
          (write_loop (a ∷ answers) total bytes (holding f b o l) out)
          total
          f
          (take o b)
          bytes
          out
  Written-more step more = record {
    n = more.n;
    buf = more.buf;
    offset = more.offset;
    last = more.last;
    taken = more.taken;
    is = step ∙ more.is;
    long = more.long;
    within = more.within;
    bounded = more.bounded;
    all =
        more.all
        ∙ join out (take o b) (take (f.wrbuf_size - o) bytes) bytes (drop (f.wrbuf_size - o) bytes)
            w.taken (take w.offset w.buf) w.kept (take-drop (f.wrbuf_size - o) bytes);
  }
