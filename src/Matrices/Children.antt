-- ===== src/Matrices/Children.antt =====
-- The four children of homework-3/solution/source/program.c: `quarter` after its operands are read, and
-- `collect_quarters` with `read_matrix`, which reads a child's product from its pipe. A pipe is the bytes
-- that its writer has put into it; it is read when they are all there. `write2matrix`, which sends the
-- operands, is left out: a child has the operands that `operands` makes.
pub mod Packet
pub mod Collect
use cse344_assignments.Base.{
  ℕ, ◌+◌, ◌-◌, List, length, take, leb, guard, exited, out_of_bounds, Option, Result, ok, err,
  ◌>>=◌, ◌>>◌,
}
use cse344_assignments.Libc.{ℤ, pos, negsuc, str2int}
use cse344_assignments.Matrices.{
  Matrix, Quarter, quarter_1st, quarter_2nd, quarter_3rd, quarter_4th, operands, merge_quarters,
  multiply,
}
use cse344_assignments.Matrices.Packets.{pack, unpack}

abbrev pub initial_read_size : ℕ
initial_read_size = 10

-- A negative size is none for `xrealloc`.
abbrev pub pkt_size_of : ℤ → Result ℕ
pkt_size_of (pos n) = ok n
pkt_size_of (negsuc n) = err out_of_bounds

module _ {F : Type 0} where
  module _ (strtof : List ℕ → Option (F × List ℕ)) (to_nat : F → ℕ) where
    -- The first ten bytes must have the end of the size; then the rest is read.
    unfoldable pub read_matrix : List ℕ → Result (Matrix F)
    read_matrix stream = do
      guard (leb initial_read_size (length stream)) exited
      total ← str2int (take initial_read_size stream)
      guard (leb 1 (length total.1)) out_of_bounds
      pkt_size ← pkt_size_of total.0
      let header_size = (initial_read_size - length total.1) + 1
      guard (leb initial_read_size (pkt_size + header_size)) out_of_bounds
      guard (leb (pkt_size + header_size) (length stream)) exited
      mat ← unpack strtof to_nat (take (pkt_size + header_size) stream)
      ok mat.0

    unfoldable pub collect_quarters : List ℕ → List ℕ → List ℕ → List ℕ → Result (Matrix F)
    unfolding read_matrix
    collect_quarters s1 s2 s3 s4 = do
      q1 ← read_matrix s1
      q2 ← read_matrix s2
      q3 ← read_matrix s3
      q4 ← read_matrix s4
      merge_quarters q1 q2 q3 q4

  module _ (render : F → List ℕ) (from_int : ℕ → F) (zero_cij : F)
      (add_product : F → F → F → F) where
    -- What a child writes into its pipe.
    unfoldable pub quarter : Matrix F × Matrix F → Result (List ℕ)
    quarter mats = multiply zero_cij add_product mats.0 mats.1 >>= pack render from_int

    abbrev pub child : Matrix F → Matrix F → Quarter → Result (List ℕ)
    child a b qua = operands a b qua >>= quarter

    module _ (strtof : List ℕ → Option (F × List ℕ)) (to_nat : F → ℕ) where
      -- The four children, and the parent after them.
      abbrev pub product_by_children : Matrix F → Matrix F → Result (Matrix F)
      product_by_children a b = do
        s1 ← child a b quarter_1st
        s2 ← child a b quarter_2nd
        s3 ← child a b quarter_3rd
        s4 ← child a b quarter_4th
        collect_quarters strtof to_nat s1 s2 s3 s4
