-- ===== src/File/Read.antt =====
-- `qp_file_track` and `qp_file_read` of src/qp_file.c, the read buffer of a file.
use qphi.Common.{
  ℕ, ◌+◌, true, false, List, [], ◌∷◌, ◌++◌, none, some, ◌==◌, if◌then◌else◌, take, drop, ltb, u64,
  ℤ, pos, negsuc, minus_one, pos_part,
}
use qphi.Memory.Chain.{null}
use qphi.File.{FileInfo, minus, peek, poke}

-- What a call returns, the file, the bytes that were stored for the caller, and those that the
-- kernel has not delivered yet.
pub record Reading : Type 0 where
  pub ret : ℤ
  pub file : FileInfo
  pub got : List ℕ
  pub stream : List ℕ

pub data ReadOutcome : Type 0 where
  delivers : Reading → ReadOutcome
  blocks : ReadOutcome
  faults : ReadOutcome

-- `answer` is what `read` returns.
unfoldable pub track : (answer : ℤ) → FileInfo → (got stream : List ℕ) → ReadOutcome
track answer f got stream = elim f.rdbuf [
  | none ↦ delivers (record { ret = minus_one; file = f; got = got; stream = stream })
  | some b ↦
      if f.is_direct_io
      then elim answer [
        | negsuc n ↦ delivers (record { ret = negsuc n; file = f; got = got; stream = stream })
        | pos n ↦
            if n == 0
            then delivers (record { ret = pos 0; file = f; got = got; stream = stream })
            else elim (poke (some b) 0 (take n stream)) [
              | none ↦ faults
              | some buf ↦ delivers (record {
                ret = pos n;
                file = record f { rdbuf = some buf; rdbuf_offset = n; rdbuf_offsetlast = 0 };
                got = got;
                stream = drop n stream;
              })
            ]
      ]
      else delivers (record { ret = pos 0; file = f; got = got; stream = stream })
]

-- The buffer has all that is wanted.
unfoldable pub get : (len : ℕ) → FileInfo → (got stream : List ℕ) → ReadOutcome
get len f got stream = elim (peek f.rdbuf f.rdbuf_offsetlast len) [
  | none ↦ faults
  | some part ↦ delivers (record {
    ret = pos len;
    file = record f { rdbuf_offsetlast = u64 (f.rdbuf_offsetlast + len) };
    got = got ++ part;
    stream = stream;
  })
]

-- A read of `total` bytes, of which `len` are wanted yet.
unfoldable pub read_loop :
    (answers : List ℤ) (total len : ℕ) → FileInfo → (got stream : List ℕ) → ReadOutcome
unfolding track get
read_loop [] total len f got stream =
    if ltb (minus f.rdbuf_offset f.rdbuf_offsetlast) len then blocks else get len f got stream
read_loop (a ∷ answers) total len f got stream =
    let rest = minus f.rdbuf_offset f.rdbuf_offsetlast in
    elim (ltb rest len) [
      | false ↦ get len f got stream
      | true ↦ elim (peek f.rdbuf f.rdbuf_offsetlast rest) [
        | none ↦ faults
        | some part ↦ elim (track a f (got ++ part) stream) [
          | blocks ↦ blocks
          | faults ↦ faults
          | delivers r ↦ elim (minus len rest == 0) [
            | true ↦ delivers (record r { ret = pos total })
            | false ↦ elim (ltb 0 (pos_part r.ret)) [
              | true ↦ read_loop answers total (minus len rest) r.file r.got r.stream
              | false ↦ delivers r
            ]
          ]
        ]
      ]
    ]

-- `answers` are those of the kernel to `read`, and `aio` what qp_fd_aio_read returns. `vptr` is where the
-- bytes are to go; both branches of the loop first copy to it. Whether the descriptor is initialised
-- is not tested.
unfoldable pub read :
    (answers : List ℤ) (aio : ℤ) (vptr len : ℕ) → FileInfo → (stream : List ℕ) → ReadOutcome
unfolding read_loop
read answers aio vptr len f stream =
    if f.is_direct_io
    then (if vptr == null then faults else read_loop answers len len f [] stream)
    else if f.is_aio
    then delivers (record { ret = aio; file = f; got = []; stream = stream })
    else elim answers [
      | [] ↦ blocks
      | a ∷ rest ↦ delivers (record {
        ret = a;
        file = f;
        got = take (pos_part a) stream;
        stream = drop (pos_part a) stream;
      })
    ]
