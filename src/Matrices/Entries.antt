-- ===== src/Matrices/Entries.antt =====
-- The entries of a matrix of homework-3 through `get_item`, `set_item` and the loops that set items.
use cse344_assignments.Base.{
  ℕ, zero, suc, ◌<◌, ◌≡◌, refl, ◌∙◌, Bool, true, false, ◌&&◌, Option, none, some, List, [], length,
  length-replicate, length-set, get_or, get_or-set, set, get_elem?-get_or, replicate, ◌==◌,
  if◌then◌else◌, ok, load, load-get_elem?, store_lem, arith,
}
use cse344_assignments.Matrices.{Matrix, create_matrix, get_item, set_item}

load_at :
    {A : Type 0} (xs : List A) (i : ℕ) (d : A) → i < length xs → load xs i ≡ ok (get_or xs i d)
load_at xs i d lt = load-get_elem? xs i (get_elem?-get_or xs i d lt)

module _ {F : Type 0} where
  -- What stands at a place of the buffer.
  abbrev pub slot : Matrix F → ℕ → ℕ → Option F
  slot mat i j = get_or (get_or mat.buffer i []) j none

  pub record IsShaped (mat : Matrix F) (n m : ℕ) : Type 0 where
    pub rows : mat.i ≡ n
    pub cols : mat.j ≡ m
    pub sized : length mat.buffer ≡ n
    pub widths : (i : ℕ) → i < n → length (get_or mat.buffer i []) ≡ m

  pub create_matrix-IsShaped : (n m : ℕ) → IsShaped (create_matrix n m) n m
  unfolding create_matrix
  create_matrix-IsShaped n m = record {
    rows = refl;
    cols = refl;
    sized = length-replicate n _;
    widths = wide n;
  }
    where
      wide :
          (k i : ℕ)
          → i < k
          → length (get_or (replicate k (replicate {A = Option F} m none)) i []) ≡ m
      wide zero i lt = elim lt [ ]
      wide (suc k) zero lt = length-replicate m _
      wide (suc k) (suc i) lt = wide k i (omega arith)

  module _ (mat : Matrix F) (n m : ℕ) (v : IsShaped mat n m) (i j : ℕ) (hi : i < n)
      (hj : j < m) where
    pub get_item_lem : {item : F} → slot mat i j ≡ some item → get_item mat i j ≡ ok item
    unfolding get_item
    get_item_lem e =
        let rows = v.rows in
        let cols = v.cols in
        let row = load_at mat.buffer i [] (omega (arith, v.sized)) in
        let at = load_at (get_or mat.buffer i []) j none (omega (arith, v.widths i hi)) in
        ground (arith, row, at, e)

    pub set_item_lem :
        (item : F)
        → (r : Matrix F) × (set_item mat i j item ≡ ok r)
          × IsShaped r n m
          × ((i' j' : ℕ)
              → slot r i' j' ≡ (if (i == i') && (j == j') then some item else slot mat i' j'))
    unfolding set_item
    set_item_lem item =
        let rows = v.rows in
        let cols = v.cols in
        let row = get_or mat.buffer i [] in
        let wide = v.widths i hi in
        let e = load_at mat.buffer i [] (omega (arith, v.sized)) in
        let f = store_lem row j (some item) (omega arith) in
        let row' = set row j (some item) in
        let g = store_lem mat.buffer i row' (omega (arith, v.sized)) in
        (
          record mat { buffer = set mat.buffer i row' },
          ground (arith, e, f, g),
          record {
            rows = v.rows;
            cols = v.cols;
            sized = length-set mat.buffer i row' ∙ v.sized;
            widths = λ k lt.
                rw (get_or-set mat.buffer i k row' [] (omega (arith, v.sized)))
                  (width k lt (i == k));
          },
          λ i' j'. rw (get_or-set mat.buffer i i' row' [] (omega (arith, v.sized))) (entry i' j'),
        )
      where
        width :
            (k : ℕ)
            → k < n
            → (b : Bool)
            → length
                (if b then set (get_or mat.buffer i []) j (some item) else get_or mat.buffer k [])
              ≡ m
        width k lt true = length-set (get_or mat.buffer i []) j (some item) ∙ v.widths i hi
        width k lt false = v.widths k lt

        entry :
            (i' j' : ℕ)
            → get_or
                (if i == i'
                  then set (get_or mat.buffer i []) j (some item)
                  else get_or mat.buffer i' [])
                j'
                none
              ≡ (if (i == i') && (j == j')
                  then some item
                  else get_or (get_or mat.buffer i' []) j' none)
        entry i' j' = ground (
          arith,
          get_or-set (get_or mat.buffer i []) j j' (some item) none (omega (arith, v.widths i hi)),
        )
