-- ===== src/Matrices/Product.antt =====
-- `piece` and `multiply` of homework-3 through the entries of the matrices.
use cse344_assignments.Base.{
  length, get_or, get_elem?-get_or, load-get_elem?, ℕ, zero, suc, ◌+◌, ◌-◌, ◌*◌, ◌≤◌, ◌<◌, ◌≡◌,
  refl, ap, ◌∙◌, true, some, List, ◌==◌, leb, Result, ok, ◌>>=◌, for_loop_invariant, arith, load,
}
use cse344_assignments.Matrices.{
  Matrix, create_matrix, get_item, set_items, piece, sum_products, multiply, buf2matrix,
}
use cse344_assignments.Matrices.Entries.{slot, IsShaped, create_matrix-IsShaped, get_item_lem}
use cse344_assignments.Matrices.Filled.{set_items_lem}

module _ {F : Type 0} where
  -- An n×m matrix whose entries are all written, with the values `f`.
  pub record HasEntries (mat : Matrix F) (n m : ℕ) (f : ℕ → ℕ → F) : Type 0 where
    pub shaped : IsShaped mat n m
    pub entries : (i j : ℕ) → i < n → j < m → slot mat i j ≡ some (f i j)

  pub HasEntries-get_item :
      (mat : Matrix F) (n m : ℕ) (f : ℕ → ℕ → F)
      → HasEntries mat n m f
      → (i j : ℕ) → i < n
      → j < m
      → get_item mat i j ≡ ok (f i j)
  HasEntries-get_item mat n m f v i j hi hj =
      get_item_lem mat n m v.shaped i j hi hj (v.entries i j hi hj)

  pub piece_lem :
      (mat : Matrix F) (n m : ℕ) (f : ℕ → ℕ → F)
      → HasEntries mat n m f
      → (imin imax jmin jmax : ℕ) → imin ≤ imax
      → imax ≤ n
      → jmin ≤ jmax
      → jmax ≤ m
      → (r : Matrix F) × (piece mat imin imax jmin jmax ≡ ok r)
        × HasEntries r (imax - imin) (jmax - jmin) (λ i j. f (i + imin) (j + jmin))
  unfolding piece
  piece_lem mat n m f v imin imax jmin jmax a b c d =
      let rows = v.shaped.rows in
      let cols = v.shaped.cols in
      let (r, e, w, filled) =
        set_items_lem (create_matrix (imax - imin) (jmax - jmin)) (imax - imin) (jmax - jmin)
          (imax - imin) (jmax - jmin) imin jmin 0 0 (λ i. i - imin) (λ j. j - jmin) (get_item mat)
          (λ i j. f (i + imin) (j + jmin)) (create_matrix-IsShaped (imax - imin) (jmax - jmin))
          (omega arith) (omega arith) (λ i le lt. omega arith) (λ j le lt. omega arith)
          (λ i j le lt le' lt'.
            HasEntries-get_item mat n m f v i j (omega arith) (omega arith)
            ∙ ap ok (ap (λ k. f k j) (omega arith) ∙ ap (f (i - imin + imin)) (omega arith))) in
      let h : leb imax mat.i ≡ true = ground arith in
      let k : leb jmax mat.j ≡ true = ground arith in
      (r, rw (h, k) e, record { shaped = w; entries = λ i j hi hj. filled i j ∙ ground arith })

  module _ (zero_cij : F) (add_product : F → F → F → F) where
    -- The sum of the first `k` products.
    unfoldable pub dot : (ℕ → F) → (ℕ → F) → ℕ → F
    dot p q zero = zero_cij
    dot p q (suc k) = add_product (dot p q k) (p k) (q k)

    dot_next :
        (p q : ℕ → F) (k : ℕ) (cij : F)
        → cij ≡ dot p q k
        → add_product cij (p k) (q k) ≡ dot p q (k + 1)
    unfolding dot
    dot_next p q k cij e =
        ap (λ c. add_product c (p k) (q k)) e
        ∙ ap (dot p q) (let h : suc k ≡ k + 1 = omega arith in h)

    sum_products_lem :
        (a b : Matrix F) (n k m : ℕ) (f g : ℕ → ℕ → F)
        → HasEntries a n k f
        → HasEntries b k m g
        → (i j : ℕ) → i < n
        → j < m
        → sum_products zero_cij add_product a b k i j ≡ ok (dot (f i) (λ x. g x j) k)
    unfolding sum_products
    sum_products_lem a b n k m f g va vb i j hi hj =
        let (cij, e, is) =
          for_loop_invariant _ (λ x cij. cij ≡ dot (f i) (λ x. g x j) x) k 0 zero_cij step
            (unfold dot in refl) in
        e ∙ ap ok (is ∙ ap (dot (f i) (λ x. g x j)) (omega arith))
      where
        step :
            (x : ℕ) (cij : F)
            → 0 ≤ x
            → x < 0 + k
            → cij ≡ dot (f i) (λ x. g x j) x
            → (cij' : F) × ((get_item a i x >>= λ p.
                  get_item b x j >>= λ q. ok (add_product cij p q))
                ≡ ok cij')
              × (cij' ≡ dot (f i) (λ x. g x j) (x + 1))
        step x cij le lt is = (
          add_product cij (f i x) (g x j),
          rw (
            HasEntries-get_item a n k f va i x hi (omega arith),
            HasEntries-get_item b k m g vb x j (omega arith) hj,
          ),
          dot_next (f i) (λ x. g x j) x cij is,
        )

    -- The product of an n×k and a k×m matrix whose entries are all written is an n×m matrix whose
    -- entry at i and j is the sum, from the left, of the k products of row i and column j.
    pub multiply_lem :
        (a b : Matrix F) (n k m : ℕ) (f g : ℕ → ℕ → F)
        → HasEntries a n k f
        → HasEntries b k m g
        → (c : Matrix F) × (multiply zero_cij add_product a b ≡ ok c)
          × HasEntries c n m (λ i j. dot (f i) (λ x. g x j) k)
    unfolding multiply
    multiply_lem a b n k m f g va vb =
        let (c, e, w, filled) =
          set_items_lem (create_matrix n m) n m n m 0 0 0 0 (λ i. i) (λ j. j)
            (sum_products zero_cij add_product a b k) (λ i j. dot (f i) (λ x. g x j) k)
            (create_matrix-IsShaped n m) (omega arith) (omega arith) (λ i le lt. omega arith)
            (λ j le lt. omega arith)
            (λ i j le lt le' lt'.
              sum_products_lem a b n k m f g va vb i j (omega arith) (omega arith)) in
        let inner = va.shaped.cols in
        let outer = vb.shaped.rows in
        let agree : (a.j == b.i) ≡ true = ground arith in
        (
          c,
          rw agree (
              ap (λ r. run r a.j b.j) va.shaped.rows
              ∙ ap (λ x. run n x b.j) va.shaped.cols
              ∙ ap (run n k) vb.shaped.cols
              ∙ e),
          record { shaped = w; entries = λ i j hi hj. filled i j ∙ ground arith },
        )
      where
        run : ℕ → ℕ → ℕ → Result (Matrix F)
        run r x c =
            set_items r 0 c 0 (λ i. i) (λ j. j) (sum_products zero_cij add_product a b x)
              (create_matrix r c)

module _ {F : Type 0} (from_char : ℕ → F) where
  at_index : (buf : List ℕ) (k : ℕ) → k < length buf → load buf k ≡ ok (get_or buf k 0)
  at_index buf k lt = load-get_elem? buf k (get_elem?-get_or buf k 0 lt)

  index_in : (n m i j : ℕ) → i < n → j < m → i * m + j < n * m
  index_in n m i j hi hj = grind arith

  -- From a buffer of at least n·m characters buf2matrix writes every entry of an n×m matrix: the
  -- character at i·m + j at row i and column j.
  pub buf2matrix_lem :
      (buf : List ℕ) (mat : Matrix F) (n m : ℕ)
      → IsShaped mat n m
      → n * m ≤ length buf
      → (r : Matrix F) × (buf2matrix from_char buf mat ≡ ok r)
        × HasEntries r n m (λ i j. from_char (get_or buf (i * m + j) 0))
  unfolding buf2matrix
  buf2matrix_lem buf mat n m v enough =
      let (r, e, w, filled) =
        set_items_lem mat n m n m 0 0 0 0 (λ i. i) (λ j. j)
          (λ i j. load buf (i * m + j) >>= λ c. ok (from_char c))
          (λ i j. from_char (get_or buf (i * m + j) 0)) v (omega arith) (omega arith)
          (λ i le lt. omega arith) (λ j le lt. omega arith)
          (λ i j le lt le' lt'. rw (
            at_index buf (i * m + j)
              (omega (arith, index_in n m i j (omega arith) (omega arith))))) in
      (
        r,
        ap (λ r. run r mat.j) v.rows ∙ ap (run n) v.cols ∙ e,
        record { shaped = w; entries = λ i j hi hj. filled i j ∙ ground arith },
      )
    where
      run : ℕ → ℕ → Result (Matrix F)
      run r c =
          set_items r 0 c 0 (λ i. i) (λ j. j)
            (λ i j. load buf (i * c + j) >>= λ x. ok (from_char x)) mat
