-- ===== src/File/Tests.antt =====
-- The buffers of src/qp_file.c on a concrete file, and the theorems applied to it.
use qphi.Common.{
  ◌≢◌, ◌⊎◌, subst, sym, none, ℕ, ◌≡◌, ◌<◌, ◌≤◌, ◌^◌, inl, inr, refl, true, false, List, [], ◌∷◌,
  some, All, arith, ℤ, pos, minus_one,
}
use qphi.File.{FileInfo, Result, ends, fault, write, file_close}
use qphi.File.Write.{holding}
use qphi.File.Turned.{IsFile, Written, Takes}
use qphi.File.Written.{write-Written}
use qphi.File.Safe.{Safe, Excuse, write-Safe}
use qphi.File.Close.{Closed, Drains, offset_after, file_close-write}
use qphi.File.Read.{read}
use qphi.File.Ahead.{Delivered}
use qphi.File.Reads.{IsReadable, read-Delivered}

-- Buffers of four bytes; two stand in the one to write, and three of the other are read.
abbrev opened : FileInfo
opened = record {
  fd = pos 7;
  is_inited = true;
  is_aio = false;
  is_direct_io = true;
  wrbuf = some (1 ∷ 2 ∷ 0 ∷ 0 ∷ []);
  rdbuf = some (10 ∷ 11 ∷ 12 ∷ 13 ∷ []);
  wrbuf_size = 4;
  rdbuf_size = 4;
  wrbuf_offset = 2;
  wrbuf_offsetlast = 0;
  rdbuf_offset = 4;
  rdbuf_offsetlast = 3;
}

opened-IsFile : IsFile opened
opened-IsFile = record {
  buf = 1 ∷ 2 ∷ 0 ∷ 0 ∷ [];
  buf_is = refl;
  long = refl;
  within = ground arith;
  direct = refl;
  inited = refl;
}

abbrev bytes : List ℕ
bytes = 3 ∷ 4 ∷ 5 ∷ 6 ∷ []

-- The kernel takes three of the first four bytes.
abbrev answers : List ℤ
answers = pos 3 ∷ pos 4 ∷ pos 4 ∷ []

answers-Takes : All (Takes opened.wrbuf_size) answers
answers-Takes = (
  (2, refl, ground arith, ground arith),
  ((3, refl, ground arith, ground arith), ((3, refl, ground arith, ground arith), tt)),
)

write-Written_example :
    Written (write answers minus_one (some bytes) opened []) 4 opened (1 ∷ 2 ∷ []) bytes []
write-Written_example =
    write-Written answers minus_one bytes opened [] opened-IsFile answers-Takes (ground arith)
      (ground arith)

-- Three bytes of which the last stays in the buffer: the call returns 1.
write-last_part :
    write (pos 4 ∷ []) minus_one (some (3 ∷ 4 ∷ 5 ∷ [])) opened []
    ≡ ends (record {
      ret = pos 1;
      file = holding opened (5 ∷ 2 ∷ 3 ∷ 4 ∷ []) 1 0;
      out = 1 ∷ 2 ∷ 3 ∷ 4 ∷ [];
    })
unfolding write
write-last_part = refl

-- The kernel refuses, and the one byte that stood in the buffer and the new ones count as three.
write-refused :
    write (minus_one ∷ []) minus_one (some bytes) (holding opened (1 ∷ 0 ∷ 0 ∷ 0 ∷ []) 1 0) []
    ≡ ends (record { ret = minus_one; file = holding opened (1 ∷ 3 ∷ 4 ∷ 5 ∷ []) 3 4; out = [] })
unfolding write
write-refused = refl

-- The kernel takes one byte of four, and the three that are left are copied onto themselves.
write-short_answer : write (pos 1 ∷ []) minus_one (some bytes) opened [] ≡ fault
unfolding write
write-short_answer = refl

write-Safe_example :
    Safe opened
      (Excuse opened (some bytes) (pos 1 ∷ minus_one ∷ []))
      (write (pos 1 ∷ minus_one ∷ []) minus_one (some bytes) opened [])
    × ((some bytes ≢ none)
        ⊎ (write (pos 1 ∷ minus_one ∷ []) minus_one (some bytes) opened [] ≡ fault))
write-Safe_example =
    write-Safe (pos 1 ∷ minus_one ∷ []) minus_one (some bytes) opened [] opened-IsFile
      (ground arith, (ground arith, tt)) (ground arith)

left_over :
    offset_after (write (pos 4 ∷ pos 4 ∷ []) minus_one (some (3 ∷ 4 ∷ 5 ∷ [])) opened []) ≡ 1
unfolding write
left_over = refl

one_left : Drains 1 (pos 1 ∷ pos 0 ∷ [])
one_left = inr (0, refl, ground arith, ground arith, inl (refl, refl))

file_close-write_example :
    (r : Result) × (write (pos 4 ∷ pos 4 ∷ []) minus_one (some (3 ∷ 4 ∷ 5 ∷ [])) opened [] ≡ ends r)
    × Closed (file_close (pos 1 ∷ pos 0 ∷ []) (pos 0) r.file r.out) (pos 0) (1 ∷ 2 ∷ 3 ∷ 4 ∷ 5 ∷ [])
file_close-write_example =
    file_close-write (pos 4 ∷ pos 4 ∷ []) (pos 1 ∷ pos 0 ∷ []) minus_one (pos 0) (3 ∷ 4 ∷ 5 ∷ [])
      opened [] opened-IsFile refl
      ((3, refl, ground arith, ground arith), ((3, refl, ground arith, ground arith), tt))
      (ground arith) (ground arith)
      (subst (λ n. Drains n (pos 1 ∷ pos 0 ∷ [])) (sym left_over) one_left)

unread_within : (3 ≤ 4) × (4 ≤ 4)
unread_within = (ground arith, ground arith)

size_bounded : 4 < 2 ^ 64
size_bounded = ground arith

abbrev opened-IsReadable : IsReadable opened
opened-IsReadable = record {
  buf = 10 ∷ 11 ∷ 12 ∷ 13 ∷ [];
  buf_is = refl;
  long = refl;
  within = unread_within;
  bounded = size_bounded;
  direct = refl;
}

read-Delivered_example :
    Delivered
      (read (pos 2 ∷ pos 1 ∷ []) minus_one 500 4 opened (14 ∷ 15 ∷ 16 ∷ 17 ∷ []))
      4
      4
      opened
      []
      (13 ∷ 14 ∷ 15 ∷ 16 ∷ 17 ∷ [])
read-Delivered_example =
    read-Delivered (pos 2 ∷ pos 1 ∷ []) minus_one 500 4 opened (14 ∷ 15 ∷ 16 ∷ 17 ∷ [])
      (λ e. ground arith) opened-IsReadable
      (1, refl, ground arith, ground arith, (0, refl, ground arith, ground arith, tt))
      (ground arith)
