-- ===== src/Matrices/Quarters.antt =====
-- The quarters of the product of homework-3, from the pieces of the operands to the merged matrix.
use cse344_assignments.Base.{
  ℕ, zero, suc, ◌+◌, ◌-◌, ◌*◌, ◌/◌, ◌≤◌, ◌<◌, ◌≡◌, refl, ap, ap₂, ◌∙◌, subst, true, ◌&&◌, some, leb,
  if◌then◌else◌, Result, ok, ◌>>=◌, arith,
}
use cse344_assignments.Matrices.{
  Matrix, Quarter, quarter_1st, quarter_2nd, quarter_3rd, quarter_4th, create_matrix, get_item,
  piece, operands, merge_quarter, merge_quarters, multiply,
}
use cse344_assignments.Matrices.Entries.{slot, IsShaped, create_matrix-IsShaped}
use cse344_assignments.Matrices.Filled.{between, set_items_lem}
use cse344_assignments.Matrices.Product.{
  HasEntries, HasEntries-get_item, piece_lem, dot, multiply_lem,
}

module _ {F : Type 0} (h : ℕ) where
  -- One quarter is merged into its place, and the rest stays.
  merge_quarter_lem :
      (mat base : Matrix F) (r c : ℕ) (prod : ℕ → ℕ → F)
      → IsShaped base (h * 2) (h * 2)
      → HasEntries mat h h (λ i j. prod (i + r) (j + c))
      → r ≤ h
      → c ≤ h
      → (t : Matrix F) × (merge_quarter h h r c mat base ≡ ok t)
        × IsShaped t (h * 2) (h * 2)
        × ((i j : ℕ)
            → slot t i j ≡ (
                if between r (r + h) i && between c (c + h) j
                then some (prod i j)
                else slot base i j))
  unfolding merge_quarter
  merge_quarter_lem mat base r c prod v e hr hc =
      set_items_lem base (h * 2) (h * 2) h h 0 0 r c (λ i. i + r) (λ j. j + c) (get_item mat) prod v
        (omega arith) (omega arith) (λ i le lt. omega arith) (λ j le lt. omega arith)
        (λ i j le lt le' lt'. HasEntries-get_item mat h h _ e i j (omega arith) (omega arith))

  pub merge_quarters_lem :
      (q1 q2 q3 q4 : Matrix F) (prod : ℕ → ℕ → F)
      → HasEntries q1 h h (λ i j. prod (i + 0) (j + 0))
      → HasEntries q2 h h (λ i j. prod (i + 0) (j + h))
      → HasEntries q3 h h (λ i j. prod (i + h) (j + 0))
      → HasEntries q4 h h (λ i j. prod (i + h) (j + h))
      → (t : Matrix F) × (merge_quarters q1 q2 q3 q4 ≡ ok t) × HasEntries t (h * 2) (h * 2) prod
  unfolding merge_quarters
  merge_quarters_lem q1 q2 q3 q4 prod e1 e2 e3 e4 =
      let (t1, f1, w1, s1) =
        merge_quarter_lem q1 (create_matrix (h * 2) (h * 2)) 0 0 prod
          (create_matrix-IsShaped (h * 2) (h * 2)) e1 (omega arith) (omega arith) in
      let (t2, f2, w2, s2) = merge_quarter_lem q2 t1 0 h prod w1 e2 (omega arith) (omega arith) in
      let (t3, f3, w3, s3) = merge_quarter_lem q3 t2 h 0 prod w2 e3 (omega arith) (omega arith) in
      let (t4, f4, w4, s4) = merge_quarter_lem q4 t3 h h prod w3 e4 (omega arith) (omega arith) in
      (
        t4,
        ap (λ ni. run ni q1.j) e1.shaped.rows ∙ ap (run h) e1.shaped.cols ∙ rw (f1, f2, f3) f4,
        record {
          shaped = w4;
          entries = λ i j hi hj. s4 i j ∙ ground (arith, s1 i j, s2 i j, s3 i j);
        },
      )
    where
      run : ℕ → ℕ → Result (Matrix F)
      run ni nj = do
        final1 ← merge_quarter ni nj 0 0 q1 (create_matrix (ni * 2) (nj * 2))
        final2 ← merge_quarter ni nj 0 nj q2 final1
        final3 ← merge_quarter ni nj ni 0 q3 final2
        merge_quarter ni nj ni nj q4 final3

  module _ (zero_cij : F) (add_product : F → F → F → F) (a b : Matrix F) (f g : ℕ → ℕ → F) where
    -- An entry of the whole product.
    abbrev pub product : ℕ → ℕ → F
    product i j = dot zero_cij add_product (f i) (λ x. g x j) (h * 2)

    dot-cong :
        (p p' q q' : ℕ → F) (k : ℕ)
        → ((x : ℕ) → p x ≡ p' x)
        → ((x : ℕ) → q x ≡ q' x)
        → dot zero_cij add_product p q k ≡ dot zero_cij add_product p' q' k
    unfolding dot
    dot-cong p p' q q' zero e e' = refl
    dot-cong p p' q q' (suc k) e e' = rw (dot-cong p p' q q' k e e', e k, e' k)

    module _ (va : HasEntries a (h * 2) (h * 2) f) (vb : HasEntries b (h * 2) (h * 2) g) where
      pieces : ℕ → ℕ → ℕ → ℕ → Result (Matrix F × Matrix F)
      pieces r r' c c' = do
        left ← piece a r r' 0 (h * 2)
        right ← piece b 0 (h * 2) c c'
        ok (left, right)

      -- The product of some rows of `a` and some columns of `b`.
      pieces-product :
          (r r' c c' : ℕ)
          → r' ≡ r + h
          → c' ≡ c + h
          → r ≤ h
          → c ≤ h
          → (m : Matrix F) × ((pieces r r' c c' >>= λ mats.
                multiply zero_cij add_product mats.0 mats.1)
              ≡ ok m)
            × HasEntries m h h (λ i j. product (i + r) (j + c))
      unfolding pieces
      pieces-product r r' c c' er ec hr hc =
          let n = h * 2 in
          let (left, e1, l) =
            piece_lem a n n f va r r' 0 n (omega arith) (omega arith) (omega arith) (omega arith) in
          let (right, e2, k) =
            piece_lem b n n g vb 0 n c c' (omega arith) (omega arith) (omega arith) (omega arith) in
          let whole : n - 0 ≡ n = omega arith in
          let l' : HasEntries left h n (λ i j. f (i + r) (j + 0)) =
            subst (λ y. HasEntries left y n (λ i j. f (i + r) (j + 0))) (omega arith)
              (subst (λ y. HasEntries left (r' - r) y (λ i j. f (i + r) (j + 0))) whole l) in
          let k' : HasEntries right n h (λ i j. g (i + 0) (j + c)) =
            subst (λ y. HasEntries right y h (λ i j. g (i + 0) (j + c))) whole
              (subst (λ y. HasEntries right (n - 0) y (λ i j. g (i + 0) (j + c))) (omega arith)
                k) in
          let (m, e3, w) = multiply_lem zero_cij add_product left right h n h _ _ l' k' in
          (
            m,
            rw (e1, e2) e3,
            record {
              shaped = w.shaped;
              entries = λ i j hi hj.
                  w.entries i j hi hj
                  ∙ ap some (
                      dot-cong _ _ _ _ n (λ x. ap (f (i + r)) (omega arith))
                        (λ x. ap (λ y. g y (j + c)) (omega arith)));
            },
          )

      unfoldable pub row_of : Quarter → ℕ
      row_of quarter_1st = 0
      row_of quarter_2nd = 0
      row_of quarter_3rd = h
      row_of quarter_4th = h

      unfoldable pub column_of : Quarter → ℕ
      column_of quarter_1st = 0
      column_of quarter_2nd = h
      column_of quarter_3rd = 0
      column_of quarter_4th = h

      -- The operands of a quarter by the two sizes.
      split : ℕ → ℕ → Quarter → Result (Matrix F × Matrix F)
      split n halfn quarter_1st = do
        left ← piece a 0 halfn 0 n
        right ← piece b 0 n 0 halfn
        ok (left, right)
      split n halfn quarter_2nd = do
        left ← piece a 0 halfn 0 n
        right ← piece b 0 n halfn n
        ok (left, right)
      split n halfn quarter_3rd = do
        left ← piece a halfn n 0 n
        right ← piece b 0 n 0 halfn
        ok (left, right)
      split n halfn quarter_4th = do
        left ← piece a halfn n 0 n
        right ← piece b 0 n halfn n
        ok (left, right)

      -- The operands of each quarter are those pieces.
      parts :
          (qua : Quarter) (r r' c c' : ℕ)
          → split (h * 2) h qua ≡ pieces r r' c c'
          → (split (h * 2) h qua >>= λ mats. multiply zero_cij add_product mats.0 mats.1)
            ≡ (pieces r r' c c' >>= λ mats. multiply zero_cij add_product mats.0 mats.1)
      parts qua r r' c c' e = rw e

      module _ (pos : 0 < h) where
        operands-split : (qua : Quarter) → operands a b qua ≡ split (h * 2) h qua
        unfolding operands split
        operands-split qua =
            let size = va.shaped.rows in
            let cols = va.shaped.cols in
            let some_rows : leb 1 a.i ≡ true = ground arith in
            let some_cols : leb 1 a.j ≡ true = ground arith in
            let half : a.i / 2 ≡ h = omega arith in
            rw (some_rows, some_cols) (ap₂ (λ n halfn. split n halfn qua) size half)

        pub quarter_lem :
            (qua : Quarter)
            → (m : Matrix F) × ((operands a b qua >>= λ mats.
                  multiply zero_cij add_product mats.0 mats.1)
                ≡ ok m)
              × HasEntries m h h (λ i j. product (i + row_of qua) (j + column_of qua))
        unfolding row_of column_of pieces split
        quarter_lem quarter_1st =
            let (m, e, w) =
              pieces-product 0 h 0 h (omega arith) (omega arith) (omega arith) (omega arith) in
            (m, rw (operands-split quarter_1st) (parts quarter_1st 0 h 0 h refl ∙ e), w)
        quarter_lem quarter_2nd =
            let (m, e, w) =
              pieces-product 0 h h (h * 2) (omega arith) (omega arith) (omega arith)
                (omega arith) in
            (m, rw (operands-split quarter_2nd) (parts quarter_2nd 0 h h (h * 2) refl ∙ e), w)
        quarter_lem quarter_3rd =
            let (m, e, w) =
              pieces-product h (h * 2) 0 h (omega arith) (omega arith) (omega arith)
                (omega arith) in
            (m, rw (operands-split quarter_3rd) (parts quarter_3rd h (h * 2) 0 h refl ∙ e), w)
        quarter_lem quarter_4th =
            let (m, e, w) =
              pieces-product h (h * 2) h (h * 2) (omega arith) (omega arith) (omega arith)
                (omega arith) in
            (m, rw (operands-split quarter_4th) (parts quarter_4th h (h * 2) h (h * 2) refl ∙ e), w)
