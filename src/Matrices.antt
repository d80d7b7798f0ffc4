-- ===== src/Matrices.antt =====
-- The matrices of homework-3/solution/source/program.c: the product of two matrices by quarters. A
-- `float` is of any type, with the operations that the code uses as parameters. An entry is `none` until
-- it is written, as `xmalloc` leaves it. The sizes are not negative.
pub mod Entries
pub mod Filled
pub mod Product
pub mod Quarters
pub mod Packets
pub mod Children
mod Examples
use cse344_assignments.Base.{
  ℕ, ◌+◌, ◌-◌, ◌*◌, ◌/◌, ◌&&◌, Option, none, some, List, ◌==◌, leb, guard, assertion, Result, ok,
  used, ◌>>=◌, ◌>>◌, load, store, replicate, for_loop,
}

pub record Matrix (F : Type 0) : Type 0 where
  pub buffer : List (List (Option F))
  pub i : ℕ
  pub j : ℕ

-- `quarters`.
pub data Quarter : Type 0 where
  quarter_1st : Quarter
  quarter_2nd : Quarter
  quarter_3rd : Quarter
  quarter_4th : Quarter

module _ {F : Type 0} where
  unfoldable pub create_matrix : ℕ → ℕ → Matrix F
  create_matrix i j = record { buffer = replicate i (replicate j none); i = i; j = j }

  -- The assertions let an index through that is one too large.
  unfoldable pub get_item : Matrix F → ℕ → ℕ → Result F
  get_item mat i j = do
    guard (leb i mat.i && leb j mat.j) assertion
    row ← load mat.buffer i
    item ← load row j
    used item

  unfoldable pub set_item : Matrix F → ℕ → ℕ → F → Result (Matrix F)
  set_item mat i j item = do
    guard (leb i mat.i && leb j mat.j) assertion
    row ← load mat.buffer i
    row' ← store row j (some item)
    buffer ← store mat.buffer i row'
    ok (record mat { buffer = buffer })

  -- Two nested loops that set one item for each pair of indices.
  unfoldable pub set_items :
      ℕ → ℕ → ℕ → ℕ → (ℕ → ℕ) → (ℕ → ℕ) → (ℕ → ℕ → Result F) → Matrix F → Result (Matrix F)
  unfolding for_loop
  set_items rows i cols j ti tj value =
      for_loop rows i
        (λ i. for_loop cols j (λ j mat. value i j >>= λ item. set_item mat (ti i) (tj j) item))

  unfoldable pub piece : Matrix F → ℕ → ℕ → ℕ → ℕ → Result (Matrix F)
  piece mat imin imax jmin jmax = do
    guard (leb imax mat.i && leb jmax mat.j) assertion
    set_items (imax - imin) imin (jmax - jmin) jmin (λ i. i - imin) (λ j. j - jmin) (get_item mat)
        (create_matrix (imax - imin) (jmax - jmin))

  unfoldable pub operands : Matrix F → Matrix F → Quarter → Result (Matrix F × Matrix F)
  operands a b qua = do
    guard (leb 1 a.i && leb 1 a.j) assertion
    let n = a.i
    let halfn = n / 2
    elim qua [
      | quarter_1st ↦ do left ← piece a 0 halfn 0 n; right ← piece b 0 n 0 halfn; ok (left, right)
      | quarter_2nd ↦ do left ← piece a 0 halfn 0 n; right ← piece b 0 n halfn n; ok (left, right)
      | quarter_3rd ↦ do left ← piece a halfn n 0 n; right ← piece b 0 n 0 halfn; ok (left, right)
      | quarter_4th ↦ do left ← piece a halfn n 0 n; right ← piece b 0 n halfn n; ok (left, right)
    ]

  -- One turn of the outer loop of `merge_quarters`.
  unfoldable pub merge_quarter : ℕ → ℕ → ℕ → ℕ → Matrix F → Matrix F → Result (Matrix F)
  merge_quarter ni nj shifti shiftj mat =
      set_items ni 0 nj 0 (λ i. i + shifti) (λ j. j + shiftj) (get_item mat)

  unfoldable pub merge_quarters : Matrix F → Matrix F → Matrix F → Matrix F → Result (Matrix F)
  merge_quarters q1 q2 q3 q4 = do
    let ni = q1.i
    let nj = q1.j
    final1 ← merge_quarter ni nj 0 0 q1 (create_matrix (ni * 2) (nj * 2))
    final2 ← merge_quarter ni nj 0 nj q2 final1
    final3 ← merge_quarter ni nj ni 0 q3 final2
    merge_quarter ni nj ni nj q4 final3

  -- The characters of the input, each as a number.
  module _ (from_char : ℕ → F) where
    unfoldable pub buf2matrix : List ℕ → Matrix F → Result (Matrix F)
    buf2matrix buf mat =
        set_items mat.i 0 mat.j 0 (λ i. i) (λ j. j)
          (λ i j. load buf (i * mat.j + j) >>= λ c. ok (from_char c)) mat

  -- `cij` before the loop, and `cij += p * q`, which rounds to an `int`.
  module _ (zero_cij : F) (add_product : F → F → F → F) where
    unfoldable pub sum_products : Matrix F → Matrix F → ℕ → ℕ → ℕ → Result F
    sum_products a b aj i j =
        for_loop aj 0
          (λ x cij. get_item a i x >>= λ p. get_item b x j >>= λ q. ok (add_product cij p q))
          zero_cij

    unfoldable pub multiply : Matrix F → Matrix F → Result (Matrix F)
    unfolding sum_products
    multiply a b = do
      guard (a.j == b.i) assertion
      set_items a.i 0 b.j 0 (λ i. i) (λ j. j) (sum_products a b a.j) (create_matrix a.i b.j)
