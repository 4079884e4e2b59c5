-- ===== src/File/Ahead.antt =====
-- What `qp_file_read` of src/qp_file.c delivers.
use qphi.Common.{
  ℕ, zero, suc, ◌+◌, ◌-◌, ◌^◌, ◌<◌, ◌≤◌, ◌≡◌, refl, ◌∙◌, sym, ap, subst, true, false, List, [], ◌∷◌,
  ◌++◌, some, take, drop, drop-drop, length, length-drop, arith, ℤ, pos, pos_part, u64, ltb, ◌==◌,
}
use qphi.File.{FileInfo, minus, peek, poke}
use qphi.File.Buffer.{length-take, take-take, drop-take, append_assoc, minus-le, peek-in}
use qphi.File.Read.{Reading, ReadOutcome, delivers, track, get, read_loop}

module _ {ℓ} {A : Type ℓ} where
  -- A part of two lists one behind the other.
  take-before : (n : ℕ) (xs ys : List A) → n ≤ length xs → take n (xs ++ ys) ≡ take n xs
  take-before zero xs ys le = refl
  take-before (suc n) [] ys le = absurd (omega (arith, le))
  take-before (suc n) (x ∷ xs) ys le = ap (λ l. x ∷ l) (take-before n xs ys (omega (arith, le)))

  drop-before : (n : ℕ) (xs ys : List A) → n ≤ length xs → drop n (xs ++ ys) ≡ drop n xs ++ ys
  drop-before zero xs ys le = refl
  drop-before (suc n) [] ys le = absurd (omega (arith, le))
  drop-before (suc n) (x ∷ xs) ys le = drop-before n xs ys (omega (arith, le))

  take-behind :
      (m n : ℕ) (xs ys : List A) → length xs ≡ m → take (m + n) (xs ++ ys) ≡ xs ++ take n ys
  take-behind zero n [] ys e = ap (λ k. take k ys) (omega arith)
  take-behind zero n (x ∷ xs) ys e = absurd (omega (arith, e))
  take-behind (suc m) n [] ys e = absurd (omega (arith, e))
  take-behind (suc m) n (x ∷ xs) ys e =
      let k : suc m + n ≡ suc (m + n) = omega arith in
      ap (λ k. take k (x ∷ (xs ++ ys))) k
      ∙ ap (λ l. x ∷ l) (take-behind m n xs ys (omega (arith, e)))

  drop-behind : (m n : ℕ) (xs ys : List A) → length xs ≡ m → drop (m + n) (xs ++ ys) ≡ drop n ys
  drop-behind zero n [] ys e = ap (λ k. drop k ys) (omega arith)
  drop-behind zero n (x ∷ xs) ys e = absurd (omega (arith, e))
  drop-behind (suc m) n [] ys e = absurd (omega (arith, e))
  drop-behind (suc m) n (x ∷ xs) ys e =
      let k : suc m + n ≡ suc (m + n) = omega arith in
      ap (λ k. drop k (x ∷ (xs ++ ys))) k ∙ drop-behind m n xs ys (omega (arith, e))

-- The file with its read buffer named.
abbrev pub reading : FileInfo → (b : List ℕ) → (offset last : ℕ) → FileInfo
reading f b o l = record f { rdbuf = some b; rdbuf_offset = o; rdbuf_offsetlast = l }

-- The bytes that the next reads are to deliver.
abbrev pub ahead : (b : List ℕ) → (offset last : ℕ) → (stream : List ℕ) → List ℕ
ahead b o l stream = take (o - l) (drop l b) ++ stream

-- The kernel delivers a byte at least in each answer, no more than the buffer has room for or there are.
abbrev pub Brings : (size left : ℕ) → List ℤ → Type 0
Brings size left [] = Unit
Brings size left (a ∷ answers) =
    (k : ℕ) × (a ≡ pos (suc k))
    × (suc k ≤ size)
    × (suc k ≤ left)
    × Brings size (left - suc k) answers

abbrev pub brought : List ℤ → ℕ
brought [] = 0
brought (a ∷ answers) = pos_part a + brought answers

-- The first `len` bytes of `all` were delivered, behind `got`, and the others are ahead.
pub record Delivered (outcome : ReadOutcome) (total len : ℕ) (f : FileInfo) (got all : List ℕ)
    : Type 0 where
  pub n : ℕ
  pub buf : List ℕ
  pub offset : ℕ
  pub last : ℕ
  pub stored : List ℕ
  pub stream : List ℕ
  pub is :
      outcome
      ≡ delivers
          (record { ret = pos n; file = reading f buf offset last; got = stored; stream = stream })
  pub long : length buf ≡ f.rdbuf_size
  pub within : (last ≤ offset) × (offset ≤ f.rdbuf_size)
  pub bounded : n ≤ total
  pub delivered : stored ≡ got ++ take len all
  pub left : ahead buf offset last stream ≡ drop len all

get-is :
    (len : ℕ) (f : FileInfo) (b : List ℕ) (o l : ℕ) (got stream : List ℕ)
    → l + len ≤ length b
    → get len (reading f b o l) got stream
      ≡ delivers (record {
        ret = pos len;
        file = reading f b o (u64 (l + len));
        got = got ++ take len (drop l b);
        stream = stream;
      })
unfolding get
get-is len f b o l got stream le = rw (get, peek-in b l len le) refl

read_loop-get :
    (answers : List ℤ) (total len : ℕ) (f : FileInfo) (got stream : List ℕ)
    → len ≤ minus f.rdbuf_offset f.rdbuf_offsetlast
    → read_loop answers total len f got stream ≡ get len f got stream
unfolding read_loop
read_loop-get [] total len f got stream le = ground (arith, le)
read_loop-get (a ∷ answers) total len f got stream le = ground (arith, le)

track-is :
    (k : ℕ) (f : FileInfo) (b : List ℕ) (o l : ℕ) (got stream buf : List ℕ)
    → f.is_direct_io ≡ true
    → poke (some b) 0 (take (suc k) stream) ≡ some buf
    → track (pos (suc k)) (reading f b o l) got stream
      ≡ delivers (record {
        ret = pos (suc k);
        file = reading f buf (suc k) 0;
        got = got;
        stream = drop (suc k) stream;
      })
unfolding track
track-is k f b o l got stream buf direct e = ground (arith, direct, e)

read_loop-turn :
    (a : ℤ) (answers : List ℤ) (total len : ℕ) (f : FileInfo) (got stream part : List ℕ)
    (r : Reading)
    → minus f.rdbuf_offset f.rdbuf_offsetlast < len
    → peek f.rdbuf f.rdbuf_offsetlast (minus f.rdbuf_offset f.rdbuf_offsetlast) ≡ some part
    → track a f (got ++ part) stream ≡ delivers r
    → 0 < pos_part r.ret
    → read_loop (a ∷ answers) total len f got stream
      ≡ read_loop answers total
          (minus len (minus f.rdbuf_offset f.rdbuf_offsetlast))
          r.file
          r.got
          r.stream
unfolding read_loop
read_loop-turn a answers total len f got stream part r lt peeked tracked up =
    rw (read_loop, wants, peeked, tracked, some_left, goes_on) refl
  where
    wants : ltb (minus f.rdbuf_offset f.rdbuf_offsetlast) len ≡ true
    wants = ground (arith, lt)

    some_left : (minus len (minus f.rdbuf_offset f.rdbuf_offsetlast) == 0) ≡ false
    some_left = ground (arith, minus-le len (minus f.rdbuf_offset f.rdbuf_offsetlast), lt)

    goes_on : ltb 0 (pos_part r.ret) ≡ true
    goes_on = ground (arith, up)

-- The same with the file's fields named, and the differences of numbers.
pub read_loop-more :
    (k : ℕ) (answers : List ℤ) (total len : ℕ) (f : FileInfo) (b : List ℕ) (o l : ℕ)
    (got stream buf : List ℕ)
    → f.is_direct_io ≡ true
    → l ≤ o
    → o ≤ length b
    → o - l < len
    → poke (some b) 0 (take (suc k) stream) ≡ some buf
    → read_loop (pos (suc k) ∷ answers) total len (reading f b o l) got stream
      ≡ read_loop answers total
          (len - (o - l))
          (reading f buf (suc k) 0)
          (got ++ take (o - l) (drop l b))
          (drop (suc k) stream)
read_loop-more k answers total len f b o l got stream buf direct low high lt poked =
    let part = take (o - l) (drop l b) in
    let rest : minus o l ≡ o - l = minus-le o l low in
    read_loop-turn (pos (suc k)) answers total len (reading f b o l) got stream part
      (record {
        ret = pos (suc k);
        file = reading f buf (suc k) 0;
        got = got ++ part;
        stream = drop (suc k) stream;
      })
      (subst (λ r. r < len) (sym rest) lt)
      (subst (λ r. peek (some b) l r ≡ some part) (sym rest)
        (peek-in b l (o - l) (omega (arith, low, high))))
      (track-is k f b o l (got ++ part) stream buf direct poked) (omega arith)
    ∙ ap
        (λ n.
          read_loop answers total n (reading f buf (suc k) 0) (got ++ part) (drop (suc k) stream))
        (ap (minus len) rest ∙ minus-le len (o - l) (omega (arith, lt)))

-- The buffer has what is wanted.
pub Delivered-get :
    (answers : List ℤ) (total len : ℕ) (f : FileInfo) (b : List ℕ) (o l : ℕ) (got stream : List ℕ)
    → length b ≡ f.rdbuf_size
    → l ≤ o
    → o ≤ f.rdbuf_size
    → f.rdbuf_size < 2 ^ 64
    → len ≤ total
    → len ≤ o - l
    → Delivered
        (read_loop answers total len (reading f b o l) got stream)
        total
        len
        f
        got
        (ahead b o l stream)
Delivered-get answers total len f b o l got stream long low high small most enough =
    let part = take (o - l) (drop l b) in
    let size : length part ≡ o - l =
      length-take (o - l) (drop l b) (omega (arith, length-drop l b, long, high)) in
    let whole : u64 (l + len) ≡ l + len = omega (arith, low, high, small, enough) in
    record {
      n = len;
      buf = b;
      offset = o;
      last = l + len;
      stored = got ++ take len (drop l b);
      stream = stream;
      is =
          read_loop-get answers total len (reading f b o l) got stream
            (omega (arith, minus-le o l low, enough))
          ∙ get-is len f b o l got stream (omega (arith, long, low, high, enough))
          ∙ ap
              (λ n. delivers (record {
                ret = pos len;
                file = reading f b o n;
                got = got ++ take len (drop l b);
                stream = stream;
              }))
              whole;
      long = long;
      within = (omega (arith, enough, low), high);
      bounded = most;
      delivered =
          ap (λ xs. got ++ xs)
            (sym (take-take len (o - l) (drop l b) enough)
              ∙ sym (take-before len part stream (omega (arith, size, enough))));
      left =
          ap (λ n. take n (drop (l + len) b) ++ stream) (omega arith)
          ∙ ap (λ xs. take ((o - l) - len) xs ++ stream) (sym (drop-drop l len b))
          ∙ ap (λ xs. xs ++ stream) (sym (drop-take len (o - l) (drop l b)))
          ∙ sym (drop-before len part stream (omega (arith, size, enough)));
    }

-- A read that needs the kernel goes on as one of what the kernel still has.
pub Delivered-more :
    (outcome outcome' : ReadOutcome) (total len : ℕ) (f : FileInfo) (got part stream all : List ℕ)
    → outcome ≡ outcome'
    → length part < len
    → all ≡ stream
    → Delivered outcome' total (len - length part) f (got ++ part) all
    → Delivered outcome total len f got (part ++ stream)
Delivered-more outcome outcome' total len f got part stream all e lt same w =
    let split : length part + (len - length part) ≡ len = omega (arith, lt) in
    record {
      n = w.n;
      buf = w.buf;
      offset = w.offset;
      last = w.last;
      stored = w.stored;
      stream = w.stream;
      is = e ∙ w.is;
      long = w.long;
      within = w.within;
      bounded = w.bounded;
      delivered =
          w.delivered
          ∙ append_assoc got part (take (len - length part) all)
          ∙ ap (λ xs. got ++ (part ++ take (len - length part) xs)) same
          ∙ ap (λ xs. got ++ xs)
              (sym (take-behind (length part) (len - length part) part stream refl))
          ∙ ap (λ n. got ++ take n (part ++ stream)) split;
      left =
          w.left
          ∙ ap (drop (len - length part)) same
          ∙ sym (drop-behind (length part) (len - length part) part stream refl)
          ∙ ap (λ n. drop n (part ++ stream)) split;
    }
