-- ===== src/File/Reads.antt =====
-- The loop of `qp_file_read`, src/qp_file.c.
use qphi.Memory.Chain.{null}
use qphi.Common.{
  ◌≢◌, ℕ, suc, ◌+◌, ◌-◌, ◌^◌, ◌<◌, ◌≤◌, ◌≡◌, ◌∙◌, sym, ap, subst, true, List, [], ◌∷◌, ◌++◌, some,
  take, drop, length, length-append, length-drop, arith, ℤ, pos_part, dec_lt,
}
use qphi.File.{FileInfo, poke}
use qphi.File.Buffer.{length-take, take-drop, take_front, poke-in}
use qphi.File.Read.{read_loop, read}
use qphi.File.Ahead.{
  reading, ahead, Brings, brought, Delivered, read_loop-more, Delivered-get, Delivered-more,
}

-- The buffer after the kernel's answer.
chunk_lem :
    (k : ℕ) (b stream : List ℕ) (size : ℕ)
    → length b ≡ size
    → suc k ≤ size
    → suc k ≤ length stream
    → let chunk = take (suc k) stream in
      let buf = chunk ++ drop (0 + length chunk) b in
      (length buf ≡ size)
      × (poke (some b) 0 chunk ≡ some buf)
      × (ahead buf (suc k) 0 (drop (suc k) stream) ≡ stream)
chunk_lem k b stream size long room there =
    let chunk = take (suc k) stream in
    let chunk_size : length chunk ≡ suc k = length-take (suc k) stream there in
    let behind = drop (0 + length chunk) b in
    let all : suc k - 0 ≡ suc k = omega arith in
    (
      omega (
        arith,
        length-append chunk behind,
        length-drop (0 + length chunk) b,
        chunk_size,
        long,
        room,
      ),
      poke-in b 0 chunk (omega (arith, chunk_size, long, room)),
      ap (λ n. take n (chunk ++ behind) ++ drop (suc k) stream) all
          ∙ ap (λ xs. xs ++ drop (suc k) stream) (take_front (suc k) chunk behind chunk_size)
          ∙ take-drop (suc k) stream,
    )

pub read_loop-Delivered :
    (answers : List ℤ) (total len : ℕ) (f : FileInfo) (b : List ℕ) (o l : ℕ) (got stream : List ℕ)
    → f.is_direct_io ≡ true
    → length b ≡ f.rdbuf_size
    → l ≤ o
    → o ≤ f.rdbuf_size
    → f.rdbuf_size < 2 ^ 64
    → Brings f.rdbuf_size (length stream) answers
    → len ≤ (o - l) + brought answers
    → len ≤ total
    → Delivered
        (read_loop answers total len (reading f b o l) got stream)
        total
        len
        f
        got
        (ahead b o l stream)
read_loop-Delivered [] total len f b o l got stream direct long low high small brings enough most =
    Delivered-get [] total len f b o l got stream long low high small most (omega (arith, enough))
read_loop-Delivered (a ∷ answers) total len f b o l got stream direct long low high small
      (k, a_is, room, there, brings) enough most =
    elim (dec_lt (o - l) len) [
      | no le ↦
          Delivered-get (a ∷ answers) total len f b o l got stream long low high small most
            (omega (arith, le))
      | yes lt ↦
          (let part = take (o - l) (drop l b) in
            let size : length part ≡ o - l =
              length-take (o - l) (drop l b) (omega (arith, length-drop l b, long, high)) in
            let chunk = take (suc k) stream in
            let buf = chunk ++ drop (0 + length chunk) b in
            let (buf_size, poked, came) = chunk_lem k b stream f.rdbuf_size long room there in
            let step =
              ap (λ a. read_loop (a ∷ answers) total len (reading f b o l) got stream) a_is
              ∙ read_loop-more k answers total len f b o l got stream buf direct low
                  (omega (arith, long, high)) lt poked
              ∙ ap
                  (λ n.
                    read_loop answers total (len - n) (reading f buf (suc k) 0) (got ++ part)
                      (drop (suc k) stream))
                  (sym size) in
            Delivered-more (read_loop (a ∷ answers) total len (reading f b o l) got stream)
              (read_loop answers total (len - length part) (reading f buf (suc k) 0) (got ++ part)
                (drop (suc k) stream))
              total len f got part stream (ahead buf (suc k) 0 (drop (suc k) stream)) step
              (omega (arith, size, lt)) came
              (read_loop-Delivered answers total (len - length part) f buf (suc k) 0 (got ++ part)
                (drop (suc k) stream) direct buf_size (omega arith) room small
                (subst (λ n. Brings f.rdbuf_size n answers) (sym (length-drop (suc k) stream))
                  brings)
                (omega (arith, enough, size, ap pos_part a_is)) (omega (arith, most))))
    ]

-- A file with a read buffer that has been initialised.
pub record IsReadable (f : FileInfo) : Type 0 where
  pub buf : List ℕ
  pub buf_is : f.rdbuf ≡ some buf
  pub long : length buf ≡ f.rdbuf_size
  pub within : (f.rdbuf_offsetlast ≤ f.rdbuf_offset) × (f.rdbuf_offset ≤ f.rdbuf_size)
  pub bounded : f.rdbuf_size < 2 ^ 64
  pub direct : f.is_direct_io ≡ true

read-direct :
    (answers : List ℤ) (aio : ℤ) (vptr len : ℕ) (f : FileInfo) (stream : List ℕ)
    → vptr ≢ null
    → f.is_direct_io ≡ true
    → read answers aio vptr len f stream ≡ read_loop answers len len f [] stream
unfolding read
read-direct answers aio vptr len f stream set d = ground (arith, set, d)

-- `qp_file_read` from a file with a buffer to a place that is not NULL, where the kernel delivers a byte at
-- least in each answer, and the answers and the buffer together have the bytes that are wanted: it
-- touches no memory outside the buffer and stores just so many bytes, which are the first of those that stood in the buffer unread and those
-- that the kernel had. The others come next.
pub read-Delivered :
    (answers : List ℤ) (aio : ℤ) (vptr len : ℕ) (f : FileInfo) (stream : List ℕ)
    → vptr ≢ null
    → (v : IsReadable f) → Brings f.rdbuf_size (length stream) answers
    → len ≤ (f.rdbuf_offset - f.rdbuf_offsetlast) + brought answers
    → Delivered
        (read answers aio vptr len f stream)
        len
        len
        f
        []
        (ahead v.buf f.rdbuf_offset f.rdbuf_offsetlast stream)
read-Delivered answers aio vptr len f stream set v brings enough =
    subst (λ w. Delivered w len len f [] (ahead v.buf f.rdbuf_offset f.rdbuf_offsetlast stream))
      (sym (
        read-direct answers aio vptr len f stream set v.direct
        ∙ ap (λ b. read_loop answers len len (record f { rdbuf = b }) [] stream) v.buf_is))
      (read_loop-Delivered answers len len f v.buf f.rdbuf_offset f.rdbuf_offsetlast [] stream
        v.direct v.long v.within.0 v.within.1 v.bounded brings enough (omega arith))
