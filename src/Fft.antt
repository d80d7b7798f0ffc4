-- ===== src/Fft.antt =====
-- The lines of 16 complex numbers of homework-1/solution/source: `str2complex` of programA.c writes one
-- from 32 characters, `buf2complex` of programB.c reads it, and `complex2buf` writes the result. A line is
-- its bytes; a `char` has a sign.
pub mod Lines
mod Examples
use cse344_assignments.Base.{
  ℕ, zero, suc, ◌+◌, ◌-◌, Bool, false, ◌||◌, List, [], ◌∷◌, ◌++◌, ◌==◌, ltb, if◌then◌else◌, length,
  drop, replicate, guard, assertion, out_of_bounds, Result, ok, err, ◌>>=◌, ◌>>◌,
}
use cse344_assignments.Libc.{ℤ, pos, negsuc, decimal_int, as_int, str2int}

-- COMPLEX_BYTE
abbrev pub line_size : ℕ
line_size = 144

-- WRITE_LIMIT and NUMBER_LIMIT
abbrev pub number_limit : ℕ
number_limit = 16

-- A `char` with the bits of a byte.
abbrev pub char_of : ℕ → ℤ
char_of byte = if ltb 127 byte then negsuc (255 - byte) else pos byte

-- "%d+i%d,"
unfoldable pub number_text : ℤ → ℤ → List ℕ
number_text x y = decimal_int x ++ (b'+' ∷ (b'i' ∷ (decimal_int y ++ (b',' ∷ []))))

-- One turn of either loop that writes: `tmp` has 9 bytes, and `sprintf` writes a zero byte to it and to
-- the line, which has `capacity` bytes.
unfoldable pub put_text : ℕ → List ℕ → List ℕ → Result (List ℕ)
put_text capacity out tmp = do
  guard (ltb (length tmp) 9) out_of_bounds
  guard (ltb (length (out ++ tmp)) capacity) out_of_bounds
  ok (out ++ tmp)

-- The loop of `str2complex`, from the characters that are left.
unfoldable pub write_numbers : ℕ → List ℕ → List ℕ → Result (List ℕ)
unfolding put_text number_text
write_numbers zero in_offset out = ok out
write_numbers (suc rounds) [] out = err out_of_bounds
write_numbers (suc rounds) (a ∷ []) out = err out_of_bounds
write_numbers (suc rounds) (a ∷ b ∷ in_offset) out =
    put_text line_size out (number_text (char_of a) (char_of b)) >>= write_numbers rounds in_offset

-- The rest of a line: EMPTY_DELIMETER up to the line's end.
unfoldable pub end_line : List ℕ → List ℕ
end_line out = out ++ (replicate (line_size - length out - 1) b' ' ++ (10 ∷ []))

unfoldable pub str2complex : List ℕ → Result (List ℕ)
unfolding write_numbers end_line
str2complex in_buf = write_numbers number_limit in_buf [] >>= λ out. ok (end_line out)

-- The test that the text goes on with one of two characters.
abbrev pub starts_with : List ℕ → ℕ → ℕ → Bool
starts_with [] c d = false
starts_with (x ∷ text) c d = (x == c) || (x == d)

-- `_str2complex`: the sign that is written before the `i` is passed over.
unfoldable pub read_complex : List ℕ → Result ((ℤ × ℤ) × List ℕ)
unfolding str2int
read_complex str = do
  x ← str2int str
  guard (starts_with x.1 b'+' b'-') assertion
  y ← str2int (drop 2 x.1)
  guard (starts_with y.1 b',' b',') assertion
  ok ((x.0, y.0), drop 1 y.1)

-- The loop of `buf2complex`.
unfoldable pub read_numbers : ℕ → List ℕ → Result (List (ℤ × ℤ))
unfolding read_complex
read_numbers zero buf = ok []
read_numbers (suc rounds) buf = do
  num ← read_complex buf
  nums ← read_numbers rounds num.1
  ok (num.0 ∷ nums)

unfoldable pub buf2complex : List ℕ → Result (List (ℤ × ℤ))
unfolding read_numbers
buf2complex buf = read_numbers number_limit buf

-- The text of a result: "%d-i%d," for a negative second part.
unfoldable pub result_text : ℤ → ℤ → Result (List ℕ)
unfolding number_text
result_text x (pos y) = ok (number_text x (pos y))
result_text x (negsuc y) = do
  minus ← as_int (pos (y + 1))
  ok (decimal_int x ++ (b'-' ∷ (b'i' ∷ (decimal_int minus ++ (b',' ∷ [])))))

-- `complex2buf`, on the parts that the casts to `int` give; the buffer has NUMBER_LIMIT * 14 bytes.
unfoldable pub write_results : List (ℤ × ℤ) → List ℕ → Result (List ℕ)
unfolding result_text put_text
write_results [] out = ok out
write_results ((x, y) ∷ nums) out = do
  tmp ← result_text x y
  out' ← put_text 224 out tmp
  write_results nums out'

unfoldable pub complex2buf : List (ℤ × ℤ) → Result (List ℕ)
unfolding write_results end_line
complex2buf nums = write_results nums [] >>= λ out. ok (end_line out)
