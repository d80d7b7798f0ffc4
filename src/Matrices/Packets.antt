-- ===== src/Matrices/Packets.antt =====
-- The packets of homework-3/solution/source/program.c, by which a matrix goes through a pipe: `pack` and
-- `unpack`. A packet is its bytes. The conversion of floats to texts and back is a parameter: `render` is
-- the `%.3f` of `sprintf`, and `strtof` gives the number at the head of a text with the text after it, or
-- nothing if there is none or it is out of range.
pub mod Texts
pub mod RoundTrip
use cse344_assignments.Base.{
  ℕ, zero, suc, ◌+◌, ◌*◌, ◌/◌, ◌%◌, Option, none, some, List, [], ◌∷◌, ◌++◌, length, drop, ltb, leb,
  if◌then◌else◌, guard, exited, out_of_bounds, int_overflow, Result, ok, err, used, ◌>>=◌, ◌>>◌,
  load, store,
}
use cse344_assignments.Libc.{int_max, decimal, str2int}
use cse344_assignments.Matrices.{Matrix, create_matrix}

abbrev pub semicolon : ℕ
semicolon = b';'

module _ {F : Type 0} where
  -- `mat->buffer[k / mat->j][k % mat->j]`.
  unfoldable pub entry_at : Matrix F → ℕ → Result F
  entry_at mat k = do row ← load mat.buffer (k / mat.j); item ← load row (k % mat.j); used item

  unfoldable pub put_entry : Matrix F → ℕ → F → Result (Matrix F)
  put_entry mat k item = do
    row ← load mat.buffer (k / mat.j)
    row' ← store row (k % mat.j) (some item)
    buffer ← store mat.buffer (k / mat.j) row'
    ok (record mat { buffer = buffer })

  -- The entries from the index `k` on.
  unfoldable pub entries_from : ℕ → ℕ → Matrix F → Result (List F)
  unfolding entry_at
  entries_from zero k mat = ok []
  entries_from (suc rounds) k mat = do
    item ← entry_at mat k
    items ← entries_from rounds (k + 1) mat
    ok (item ∷ items)

module _ {F : Type 0} (render : F → List ℕ) where
  -- A number with its semicolon.
  abbrev pub item_text : F → List ℕ
  item_text x = render x ++ (semicolon ∷ [])

  -- The loop of `pack` over `buf`, with its text and the size of its block: `temp` has 20 bytes, and
  -- `sprintf` writes the zero byte too.
  unfoldable pub print_items : List F → List ℕ → ℕ → Result (List ℕ)
  print_items [] text capacity = ok text
  print_items (x ∷ xs) text capacity = do
    guard (ltb (length (item_text x)) 20) out_of_bounds
    let text' = text ++ item_text x
    guard (ltb (length text') capacity) out_of_bounds
    print_items xs text' (if leb capacity (length text') then capacity * 2 else capacity)

  module _ (from_int : ℕ → F) where
    -- The text of an `int` fits into `temp`.
    unfoldable pub pack : Matrix F → Result (List ℕ)
    unfolding entries_from print_items
    pack mat = do
      let size = mat.i * mat.j + 2
      items ← entries_from (mat.i * mat.j) 0 mat
      body ← print_items (from_int mat.i ∷ (from_int mat.j ∷ items)) [] (size * 8)
      guard (leb (length body) int_max) int_overflow
      ok (decimal (length body) ++ (semicolon ∷ body))

module _ {F : Type 0} (strtof : List ℕ → Option (F × List ℕ)) where
  -- `str2float` of utils.c.
  abbrev pub number_read : Option (F × List ℕ) → Result (F × List ℕ)
  number_read none = err exited
  number_read (some read) = ok read

  unfoldable pub str2float : List ℕ → Result (F × List ℕ)
  str2float buf = number_read (strtof buf)

  unfoldable pub read_items : ℕ → ℕ → Matrix F → List ℕ → Result (Matrix F)
  unfolding str2float put_entry
  read_items zero k mat end_ptr = ok mat
  read_items (suc rounds) k mat end_ptr = do
    read ← str2float (drop 1 end_ptr)
    mat' ← put_entry mat k read.0
    read_items rounds (k + 1) mat' read.1

  module _ (to_nat : F → ℕ) where
    -- The matrix and the size that `unpack` returns.
    unfoldable pub unpack : List ℕ → Result (Matrix F × ℕ)
    unfolding str2int read_items
    unpack pkt = do
      total ← str2int pkt
      i ← str2float (drop 1 total.1)
      j ← str2float (drop 1 i.1)
      let mat = create_matrix (to_nat i.0) (to_nat j.0)
      mat' ← read_items (mat.i * mat.j) 0 mat j.1
      ok (mat', mat.i * mat.j + 2)
