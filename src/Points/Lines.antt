-- ===== src/Points/Lines.antt =====
-- The first line of the file is read and removed.
use cse344_assignments.Base.{
  ℕ, zero, suc, ◌+◌, ◌-◌, ◌≤◌, ◌<◌, ◌≡◌, ◌≢◌, refl, ap, ◌∙◌, true, false, List, [], ◌∷◌, ◌++◌, ◌==◌,
  leb, length, length-append, length-set, get_or, get_or-set, set, replicate, ok, store_lem, All,
  arith,
}
use cse344_assignments.Libc.{int_max}
use cse344_assignments.Points.{
  space, newline, File, available_from, next_available, Reading, read_chars, read_line,
  after_newline, remove_line,
}

-- The buffer after the bytes of a text.
unfoldable pub put_chars : List ℕ → List ℕ → ℕ → List ℕ
put_chars [] buf off = buf
put_chars (c ∷ text) buf off = put_chars text (set (set buf 0 c) (off + 1) c) (off + 1)

read_chars_lem :
    (line rest buf : List ℕ) (off : ℕ)
    → All (λ c. c ≢ newline) line
    → off + length line + 1 < length buf
    → length buf ≡ 512
    → read_chars (line ++ (newline ∷ rest)) buf off
      ≡ ok (record {
        cont = true;
        buf = put_chars (line ++ (newline ∷ [])) buf off;
        off = off + length line + 1;
      })
unfolding read_chars put_chars
read_chars_lem [] rest buf off h room size =
    rw
      (
        store_lem buf 0 newline (omega arith),
        store_lem (set buf 0 newline) (off + 1) newline (omega (arith, length-set buf 0 newline)),
      )
      (ground arith)
read_chars_lem (c ∷ line) rest buf off h room size =
    let first = set buf 0 c in
    let buf' = set first (off + 1) c in
    let len : length buf' ≡ length buf = length-set first (off + 1) c ∙ length-set buf 0 c in
    let other : (c == newline) ≡ false = ground (arith, h.0) in
    let small : leb 512 (off + 1) ≡ false = ground arith in
    rw
      (
        store_lem buf 0 c (omega arith),
        store_lem first (off + 1) c (omega (arith, length-set buf 0 c)),
        other,
        small,
      )
      (read_chars_lem line rest buf' (off + 1) h.1 (omega arith) (len ∙ size)
        ∙ ap
            (λ n. ok (record {
              cont = true;
              buf = put_chars (line ++ (newline ∷ [])) buf' (off + 1);
              off = n;
            }))
            (omega arith))

after_newline_lem :
    (line rest : List ℕ)
    → All (λ c. c ≢ newline) line
    → All (λ c. c ≢ 0) line
    → after_newline (line ++ (newline ∷ rest)) ≡ ok rest
unfolding after_newline
after_newline_lem [] rest h k = refl
after_newline_lem (c ∷ line) rest h k =
    let other : (c == newline) ≡ false = ground (arith, h.0) in
    let text : (c == 0) ≡ false = ground (arith, k.0) in
    rw (other, text) (after_newline_lem line rest h.1 k.1)

length-put : (buf : List ℕ) (off c : ℕ) → length (set (set buf 0 c) (off + 1) c) ≡ length buf
length-put buf off c = length-set (set buf 0 c) (off + 1) c ∙ length-set buf 0 c

-- The places that are written stay as they are, but for the first.
put_chars_keeps :
    (text buf : List ℕ) (off j : ℕ)
    → off + length text < length buf
    → 0 < j
    → j ≤ off
    → get_or (put_chars text buf off) j 0 ≡ get_or buf j 0
unfolding put_chars
put_chars_keeps [] buf off j room pos le = refl
put_chars_keeps (c ∷ text) buf off j room pos le =
    put_chars_keeps text (set (set buf 0 c) (off + 1) c) (off + 1) j
      (omega (arith, length-put buf off c)) pos (omega arith)
    ∙ ground (
      arith,
      get_or-set (set buf 0 c) (off + 1) j c 0 (omega (arith, length-set buf 0 c)),
      get_or-set buf 0 j c 0 (omega arith),
    )

-- What the buffer holds after the text.
put_chars_lem :
    (text buf : List ℕ) (off k : ℕ)
    → off + length text < length buf
    → k < length text
    → get_or (put_chars text buf off) (off + 1 + k) 0 ≡ get_or text k 0
unfolding put_chars
put_chars_lem [] buf off k room lt = absurd (omega arith)
put_chars_lem (c ∷ text) buf off zero room lt =
    ap (λ n. get_or (put_chars text (set (set buf 0 c) (off + 1) c) (off + 1)) n 0) (omega arith)
    ∙ put_chars_keeps text (set (set buf 0 c) (off + 1) c) (off + 1) (off + 1)
        (omega (arith, length-put buf off c)) (omega arith) (omega arith)
    ∙ ground (
      arith,
      get_or-set (set buf 0 c) (off + 1) (off + 1) c 0 (omega (arith, length-set buf 0 c)),
    )
put_chars_lem (c ∷ text) buf off (suc k) room lt =
    ap (λ n. get_or (put_chars text (set (set buf 0 c) (off + 1) c) (off + 1)) n 0) (omega arith)
    ∙ put_chars_lem text (set (set buf 0 c) (off + 1) c) (off + 1) k
        (omega (arith, length-put buf off c)) (omega arith)

available_at : (c : ℕ) (text : List ℕ) → c ≢ space → available_from (c ∷ text) 0 ≡ 0
unfolding available_from
available_at c [] other = ground (arith, other)
available_at c (b ∷ text) other = ground (arith, other)

read_first :
    (line rest buf : List ℕ)
    → All (λ c. c ≢ newline) line
    → All (λ c. c ≢ 0) line
    → length line < 511
    → length (line ++ (newline ∷ rest)) ≤ int_max
    → length buf ≡ 512
    → (r : Reading) × (f : File) × (read_line
          (record { bytes = line ++ (newline ∷ rest); cursor = 0 })
          buf
        ≡ ok (r, f))
      × (r.cont ≡ true)
      × ((k : ℕ)
          → k < length line + 1
          → get_or r.buf (k + 1) 0 ≡ get_or (line ++ (newline ∷ [])) k 0)
      × (remove_line f
          ≡ ok (record { bytes = rest ++ replicate (length line + 1) space; cursor = 0 }))
unfolding read_line remove_line
read_first line rest buf h k short few size =
    let within : leb (length (line ++ (newline ∷ rest))) int_max ≡ true = ground (arith, few) in
    let text = line ++ (newline ∷ []) in
    let len : length text ≡ length line + 1 = length-append {0} line (newline ∷ []) in
    let all : length (line ++ (newline ∷ rest)) - length rest ≡ length line + 1 =
      omega (arith, length-append {0} line (newline ∷ rest)) in
    (
      record { cont = true; buf = put_chars text buf 0; off = length line + 1 },
      record { bytes = line ++ (newline ∷ rest); cursor = length line + 1 },
      rw (read_chars_lem line rest buf 0 h (omega arith) size) (ground arith),
      refl,
      λ k lt.
          ap (λ n. get_or (put_chars text buf 0) n 0) (omega arith)
          ∙ put_chars_lem text buf 0 k (omega arith) (omega arith),
      rw (within, after_newline_lem line rest h k, all) refl,
    )

-- In a file of at most INT_MAX bytes that begins with a line of fewer than 512 bytes, its newline
-- among them, no byte of it zero and the first no space, read_line after next_available returns
-- that line from the second byte of its buffer on, and remove_line then moves the rest of the file
-- to its beginning and fills the end with spaces.
pub pop_line :
    (c cursor : ℕ) (line rest buf : List ℕ)
    → c ≢ space
    → All (λ c. c ≢ newline) (c ∷ line)
    → All (λ c. c ≢ 0) (c ∷ line)
    → length line < 510
    → length (c ∷ (line ++ (newline ∷ rest))) ≤ int_max
    → length buf ≡ 512
    → (r : Reading) × (f : File) × (read_line
          (next_available (record { bytes = c ∷ (line ++ (newline ∷ rest)); cursor = cursor }))
          buf
        ≡ ok (r, f))
      × (r.cont ≡ true)
      × ((k : ℕ)
          → k < length line + 2
          → get_or r.buf (k + 1) 0 ≡ get_or (c ∷ (line ++ (newline ∷ []))) k 0)
      × (remove_line f
          ≡ ok (record { bytes = rest ++ replicate (length line + 2) space; cursor = 0 }))
unfolding next_available
pop_line c cursor line rest buf other h k short few size =
    let (r, f, read, cont, holds, removed) =
      read_first (c ∷ line) rest buf h k (omega arith) few size in
    (
      r,
      f,
      ap (λ n. read_line (record { bytes = c ∷ (line ++ (newline ∷ rest)); cursor = n }) buf)
            (available_at c (line ++ (newline ∷ rest)) other)
          ∙ read,
      cont,
      λ k lt. holds k (omega arith),
      removed
          ∙ ap (λ n. ok (record { bytes = rest ++ replicate n space; cursor = 0 })) (omega arith),
    )
