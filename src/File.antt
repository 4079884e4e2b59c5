-- ===== src/File.antt =====
-- Files with buffers, src/qp_file.c: the functions on the write buffer, those on the read buffer being in
-- Read. A buffer is the list of its bytes, `none` for NULL. `stat` and the file's own offset, which
-- only the system reads, are left out.
pub mod Buffer
pub mod Write
pub mod Turned
pub mod Written
pub mod Safe
pub mod Close
pub mod Read
pub mod Ahead
pub mod Reads
mod Tests
use qphi.Common.{
  ℕ, zero, suc, ◌+◌, ◌-◌, ◌^◌, Bool, true, false, not, ◌||◌, List, [], ◌∷◌, ◌++◌, Option, none,
  some, ◌==◌, if◌then◌else◌, take, drop, length, ltb, leb, u64, ℤ, pos, negsuc, minus_one,
  is_minus_one, pos_part,
}

-- The fields `fd`, `is_inited` and `is_aio` are the descriptor's.
pub record FileInfo : Type 0 where
  pub fd : ℤ
  pub is_inited : Bool
  pub is_aio : Bool
  pub is_direct_io : Bool
  pub wrbuf : Option (List ℕ)
  pub rdbuf : Option (List ℕ)
  pub wrbuf_size : ℕ
  pub rdbuf_size : ℕ
  pub wrbuf_offset : ℕ
  pub wrbuf_offsetlast : ℕ
  pub rdbuf_offset : ℕ
  pub rdbuf_offsetlast : ℕ

-- What a call returns, the file, and the bytes that the kernel has taken.
pub record Result : Type 0 where
  pub ret : ℤ
  pub file : FileInfo
  pub out : List ℕ

-- A call is over, or still waits for the kernel, or has called memcpy where that is undefined: outside a
-- buffer, with NULL, or on two ranges that overlap.
pub data Outcome : Type 0 where
  ends : Result → Outcome
  waits : Outcome
  fault : Outcome

-- `a - b` of a `size_t`
abbrev pub minus : ℕ → ℕ → ℕ
minus a b = if leb b a then a - b else u64 (2 ^ 64 + a - b)

-- The `n` bytes of a buffer from `at` on.
abbrev pub peek : Option (List ℕ) → (at n : ℕ) → Option (List ℕ)
peek none at n = none
peek (some buf) at n = if leb (at + n) (length buf) then some (take n (drop at buf)) else none

-- The buffer with the bytes from `at` on.
abbrev pub poke : Option (List ℕ) → (at : ℕ) → List ℕ → Option (List ℕ)
poke none at bytes = none
poke (some buf) at bytes =
    if leb (at + length bytes) (length buf)
    then some (take at buf ++ (bytes ++ drop (at + length bytes) buf))
    else none

abbrev pub is_null : Option (List ℕ) → Bool
is_null none = true
is_null (some buf) = false

-- What is left of the buffer after the kernel took `ret` bytes of it is copied to the front. The two ranges
-- overlap when more is left than was taken.
unfoldable pub shift : (ret : ℕ) → FileInfo → Option FileInfo
shift ret f =
    let f1 = record f { wrbuf_offset = minus f.wrbuf_offsetlast ret } in
    if f1.wrbuf_offset == 0
    then some f1
    else if ltb ret f1.wrbuf_offset
    then none
    else elim (peek f1.wrbuf ret f1.wrbuf_offset) [
      | none ↦ none
      | some rest ↦ elim (poke f1.wrbuf 0 rest) [
        | none ↦ none
        | some buf ↦ some (record f1 { wrbuf = some buf })
      ]
    ]

-- After the call of `write`, if there was one.
unfoldable pub flushed : (ret : ℤ) → FileInfo → (out : List ℕ) → Outcome
unfolding shift
flushed (pos zero) f out = ends (record { ret = pos zero; file = f; out = out })
flushed (negsuc n) f out = ends (record { ret = negsuc n; file = f; out = out })
flushed (pos (suc k)) f out = elim (shift (suc k) f) [
  | none ↦ fault
  | some f2 ↦
      ends (record { ret = pos (minus f2.wrbuf_size f2.wrbuf_offset); file = f2; out = out })
]

-- `answer` is what `write` returns.
unfoldable pub flush : (answer : ℤ) → (full : Bool) → FileInfo → (out : List ℕ) → Outcome
unfolding flushed
flush answer full f out = elim f.wrbuf [
  | none ↦ ends (record { ret = minus_one; file = f; out = out })
  | some buf ↦
      (let f1 = record f { wrbuf_offsetlast = if full then f.wrbuf_size else f.wrbuf_offset } in
        if f.is_direct_io
        then flushed answer f1 (out ++ take (pos_part answer) (take f1.wrbuf_offsetlast buf))
        else flushed (pos 0) f1 out)
]

-- The rest of the bytes fits.
unfoldable pub put : (bytes : List ℕ) → FileInfo → (out : List ℕ) → Outcome
put bytes f out = elim (poke f.wrbuf f.wrbuf_offset bytes) [
  | none ↦ fault
  | some buf ↦ ends (record {
    ret = pos (length bytes);
    file = record f {
      wrbuf = some buf;
      wrbuf_offsetlast = f.wrbuf_offset;
      wrbuf_offset = u64 (f.wrbuf_offset + length bytes);
    };
    out = out;
  })
]

-- The buffer is filled with the first bytes.
unfoldable pub fill : (bytes : List ℕ) → FileInfo → Option FileInfo
fill bytes f =
    let room = minus f.wrbuf_size f.wrbuf_offset in
    elim (peek (some bytes) 0 room) [
      | none ↦ none
      | some part ↦ elim (poke f.wrbuf f.wrbuf_offset part) [
        | none ↦ none
        | some buf ↦
            some (record f {
              wrbuf = some buf;
              wrbuf_offsetlast = f.wrbuf_offset;
              wrbuf_offset = room;
            })
      ]
    ]

-- A write of `total` bytes, of which `bytes` are left.
unfoldable pub write_loop :
    (answers : List ℤ) (total : ℕ) (bytes : List ℕ) → FileInfo → (out : List ℕ) → Outcome
unfolding put fill flush
write_loop [] total bytes f out =
    if ltb (u64 (f.wrbuf_offset + length bytes)) f.wrbuf_size
    then put bytes f out
    else elim (fill bytes f) [ none ↦ fault | some f1 ↦ waits ]
write_loop (a ∷ answers) total bytes f out =
    if ltb (u64 (f.wrbuf_offset + length bytes)) f.wrbuf_size
    then put bytes f out
    else elim (fill bytes f) [
      | none ↦ fault
      | some f1 ↦
          (let rest = drop f1.wrbuf_offset bytes in
            elim (flush a true f1 out) [
              | waits ↦ waits
              | fault ↦ fault
              | ends r ↦ elim (length rest == 0) [
                | true ↦ ends (record r { ret = pos total })
                | false ↦ elim (ltb 0 (pos_part r.ret)) [
                  | true ↦ write_loop answers total rest r.file r.out
                  | false ↦ ends r
                ]
              ]
            ])
    ]

-- The bytes that can be read at `vptr`.
abbrev pub source : Option (List ℕ) → List ℕ
source none = []
source (some bytes) = bytes

-- `answers` are those of the kernel to `write`, and `aio` what qp_fd_aio_write returns. `vptr` points to
-- `len` bytes, or is NULL, from which both branches of the loop first copy.
unfoldable pub write :
    (answers : List ℤ) (aio : ℤ) (vptr : Option (List ℕ)) → FileInfo → (out : List ℕ) → Outcome
unfolding write_loop
write answers aio vptr f out =
    if not f.is_inited
    then ends (record { ret = minus_one; file = f; out = out })
    else if f.is_direct_io
    then elim vptr [ none ↦ fault | some bytes ↦ write_loop answers (length bytes) bytes f out ]
    else if f.is_aio
    then ends (record { ret = aio; file = f; out = out })
    else elim answers [
      | [] ↦ waits
      | a ∷ rest ↦ ends (record { ret = a; file = f; out = out ++ take (pos_part a) (source vptr) })
    ]

-- The loop of qp_file_close.
unfoldable pub drain : (answers : List ℤ) → FileInfo → (out : List ℕ) → Outcome
unfolding flush
drain [] f out = waits
drain (a ∷ answers) f out = elim (flush a false f out) [
  | waits ↦ waits
  | fault ↦ fault
  | ends r ↦ elim (ltb 0 (pos_part r.ret)) [ true ↦ drain answers r.file r.out | false ↦ ends r ]
]

-- `answer` is what `close` returns.
unfoldable pub file_close : (answers : List ℤ) (answer : ℤ) → FileInfo → (out : List ℕ) → Outcome
unfolding drain
file_close answers answer f out =
    if is_minus_one f.fd
    then ends (record { ret = minus_one; file = f; out = out })
    else elim (if is_null f.wrbuf || f.wrbuf_offset == 0
        then ends (record { ret = pos 0; file = f; out = out })
        else drain answers f out) [
          | waits ↦ waits
          | fault ↦ fault
          | ends r ↦
              ends (record { ret = answer; file = record (r.file) { fd = minus_one }; out = r.out })
        ]

-- The size of the buffer, 0 for none, and the buffer that the caller may fill.
unfoldable pub get_writebuf : FileInfo → ℕ × Option (List ℕ)
get_writebuf f =
    if not f.is_inited || not f.is_direct_io then (0, none) else (f.wrbuf_size, f.wrbuf)

unfoldable pub get_readbuf : FileInfo → ℕ × Option (List ℕ)
get_readbuf f = if not f.is_inited || not f.is_direct_io then (0, none) else (f.rdbuf_size, f.rdbuf)

-- The caller's own bytes in the buffer go out.
unfoldable pub direct_write : (answer : ℤ) (len : ℕ) → FileInfo → (out : List ℕ) → Outcome
direct_write answer len f out =
    if not f.is_inited
    then ends (record { ret = minus_one; file = f; out = out })
    else elim (peek f.wrbuf 0 len) [
      | none ↦ fault
      | some bytes ↦
          ends (record { ret = answer; file = f; out = out ++ take (pos_part answer) bytes })
    ]
