-- ===== src/Points.antt =====
-- The file between the two processes of homework-2/solution/source/program.c: P1 writes lines to its end,
-- and P2 reads the first line and removes it. A file is its bytes and its cursor; each function runs
-- under the lock. A buffer is its bytes.
pub mod Lines
pub mod Texts
pub mod Stats
mod Examples
use cse344_assignments.Base.{
  ℕ, ◌+◌, ◌-◌, ◌^◌, ltb, Bool, true, false, ◌&&◌, List, [], ◌∷◌, ◌++◌, ◌==◌, leb, if◌then◌else◌,
  length, drop, replicate, guard, assertion, out_of_bounds, int_overflow, Result, ok, err, ◌>>=◌,
  ◌>>◌, load, store,
}
use cse344_assignments.Libc.{int_max}

abbrev pub space : ℕ
space = b' '

abbrev pub newline : ℕ
newline = 10

pub record File : Type 0 where
  pub bytes : List ℕ
  pub cursor : ℕ

-- A `char` with the bits of a byte, as an `unsigned int`.
abbrev pub unsigned_of : ℕ → ℕ
unsigned_of byte = if ltb 127 byte then 2 ^ 32 - 256 + byte else byte

-- The points of the characters; the conversion to `float` is a parameter.
unfoldable pub bytes2points : {F : Type 0} → (ℕ → F) → List ℕ → List (F × F)
bytes2points to_float [] = []
bytes2points to_float (x ∷ []) = []
bytes2points to_float (x ∷ y ∷ buf) =
    (to_float (unsigned_of x), to_float (unsigned_of y)) ∷ bytes2points to_float buf

-- The loop of `next_empty`: two bytes are read at a time; `last` is what the second byte of the buffer holds.
unfoldable pub empty_from : List ℕ → ℕ → ℕ → ℕ
empty_from [] offset last = offset
empty_from (a ∷ []) offset last =
    if a == space
    then offset
    else if (a == newline) && (last == space)
    then offset + 1
    else offset + 1
empty_from (a ∷ b ∷ rest) offset last =
    let later = empty_from rest (offset + 2) b in
    if (a == space) && (b == space)
    then offset
    else if (a == newline) && (b == space)
    then offset + 1
    else later

unfoldable pub next_empty : File → File
unfolding empty_from
next_empty f = record f { cursor = empty_from f.bytes 0 0 }

-- The loop of `next_available`; its second test is never reached with a newline.
unfoldable pub available_from : List ℕ → ℕ → ℕ
available_from [] offset = offset
available_from (a ∷ []) offset = if a == space then offset + 1 else offset
available_from (a ∷ b ∷ rest) offset =
    let later = available_from rest (offset + 2) in if a == space then later else offset

unfoldable pub next_available : File → File
unfolding available_from
next_available f = record f { cursor = available_from f.bytes 0 }

-- What `read_line` leaves: whether there is a line, the buffer, and how far it has read.
pub record Reading : Type 0 where
  pub cont : Bool
  pub buf : List ℕ
  pub off : ℕ

-- The end of `read_line` without a line: the text is all spaces.
abbrev pub no_line : List ℕ → ℕ → ℕ → Result Reading
no_line buf off mark =
    guard (mark == space) assertion >> ok (record { cont = false; buf = buf; off = off })

-- The loop of `read_line`: each byte goes to the start of the buffer and to its place.
unfoldable pub read_chars : List ℕ → List ℕ → ℕ → Result Reading
read_chars [] buf off = ok (record { cont = false; buf = buf; off = off })
read_chars (c ∷ text) buf off = do
  first ← store buf 0 c
  buf' ← store first (off + 1) c
  let later = read_chars text buf' (off + 1)
  (if c == newline
      then ok (record { cont = true; buf = buf'; off = off + 1 })
      else (if leb 512 (off + 1) then (load buf' 1 >>= no_line buf' (off + 1)) else later))

unfoldable pub read_line : File → List ℕ → Result (Reading × File)
unfolding read_chars
read_line f buf = do
  r ← read_chars (drop f.cursor f.bytes) buf 0
  ok (r, record f { cursor = f.cursor + r.off })

-- `strchr` and the byte after it: a zero byte gives a null pointer, which is read; without a newline or a
-- zero byte it reads past the block.
unfoldable pub after_newline : List ℕ → Result (List ℕ)
after_newline [] = err out_of_bounds
after_newline (c ∷ text) =
    let later = after_newline text in
    if c == newline then ok text else if c == 0 then err out_of_bounds else later

-- `remove_line`; `size` counts the bytes of the file in an `int`.
unfoldable pub remove_line : File → Result File
unfolding after_newline
remove_line f = do
  guard (leb (length f.bytes) int_max) int_overflow
  rest ← after_newline f.bytes
  ok (record { bytes = rest ++ replicate (length f.bytes - length rest) space; cursor = 0 })
