-- ===== src/Matrices/Filled.antt =====
-- What the nested loops of homework-3 that set one item for each pair of indices leave in a matrix.
use cse344_assignments.Base.{
  ℕ, ◌+◌, ◌≤◌, ◌<◌, ◌≡◌, ◌∙◌, Bool, ◌&&◌, some, ◌==◌, leb, ltb, if◌then◌else◌, Result, ok, ◌>>=◌,
  for_loop, for_loop_invariant, arith,
}
use cse344_assignments.Matrices.{Matrix, set_item, set_items}
use cse344_assignments.Matrices.Entries.{slot, IsShaped, set_item_lem}

-- The indices from `from` up to `to`.
abbrev pub between : ℕ → ℕ → ℕ → Bool
between from to x = leb from x && ltb x to

module _ {F : Type 0} (mat : Matrix F) (n m : ℕ) where
  abbrev RowFilled : ℕ → ℕ → ℕ → ℕ → (ℕ → F) → ℕ → Matrix F → Type 0
  RowFilled row to_j j0 cols g j t =
      IsShaped t n m
      × ((i' j' : ℕ)
          → slot t i' j' ≡ (
              if (row == i') && (leb to_j j' && ltb (j' + j0) (to_j + j))
              then some (g j')
              else slot mat i' j'))

  -- The inner loop fills a part of one row.
  set_row :
      (row to_j j0 cols : ℕ) (tj : ℕ → ℕ) (value : ℕ → Result F) (g : ℕ → F)
      → IsShaped mat n m
      → row < n
      → to_j + cols ≤ m
      → ((j : ℕ) → j0 ≤ j → j < j0 + cols → (tj j + j0 ≡ to_j + j) × (value j ≡ ok (g (tj j))))
      → (t : Matrix F) × (for_loop cols j0
            (λ j t. value j >>= λ item. set_item t row (tj j) item)
            mat
          ≡ ok t)
        × RowFilled row to_j j0 cols g (j0 + cols) t
  set_row row to_j j0 cols tj value g v hrow fits each =
      for_loop_invariant _ (RowFilled row to_j j0 cols g) cols j0 mat step
        (v, λ i' j'. ground arith)
    where
      step :
          (j : ℕ) (t : Matrix F)
          → j0 ≤ j
          → j < j0 + cols
          → RowFilled row to_j j0 cols g j t
          → (t' : Matrix F) × ((value j >>= λ item. set_item t row (tj j) item) ≡ ok t')
            × RowFilled row to_j j0 cols g (j + 1) t'
      step j t le lt (w, filled) =
          let (at, val) = each j le lt in
          let (t', e, w', entry) = set_item_lem t n m w row (tj j) hrow (omega arith) (g (tj j)) in
          (t', rw val e, (w', λ i' j'. entry i' j' ∙ next t i' j' at (filled i' j')))
        where
          next :
              (t : Matrix F) (i' j' : ℕ)
              → tj j + j0 ≡ to_j + j
              → slot t i' j' ≡ (
                  if (row == i') && (leb to_j j' && ltb (j' + j0) (to_j + j))
                  then some (g j')
                  else slot mat i' j')
              → (if (row == i') && (tj j == j') then some (g (tj j)) else slot t i' j') ≡ (
                  if (row == i') && (leb to_j j' && ltb (j' + j0) (to_j + (j + 1)))
                  then some (g j')
                  else slot mat i' j')
          next t i' j' at e = ground arith

module _ {F : Type 0} (mat : Matrix F) (n m : ℕ) where
  module _ (rows cols i0 j0 to_i to_j : ℕ) (ti tj : ℕ → ℕ) (value : ℕ → ℕ → Result F)
      (g : ℕ → ℕ → F) (v : IsShaped mat n m) (fits_i : to_i + rows ≤ n) (fits_j : to_j + cols ≤ m)
      (at_i : (i : ℕ) → i0 ≤ i → i < i0 + rows → ti i + i0 ≡ to_i + i)
      (at_j : (j : ℕ) → j0 ≤ j → j < j0 + cols → tj j + j0 ≡ to_j + j)
      (each : (i j : ℕ)
        → i0 ≤ i
        → i < i0 + rows
        → j0 ≤ j
        → j < j0 + cols
        → value i j ≡ ok (g (ti i) (tj j))) where
    abbrev RowsFilled : ℕ → Matrix F → Type 0
    RowsFilled i t =
        IsShaped t n m
        × ((i' j' : ℕ)
            → slot t i' j' ≡ (
                if (leb to_i i' && ltb (i' + i0) (to_i + i)) && between to_j (to_j + cols) j'
                then some (g i' j')
                else slot mat i' j'))

    -- The loops fill a part of the matrix and leave the rest.
    pub set_items_lem :
        (t : Matrix F) × (set_items rows i0 cols j0 ti tj value mat ≡ ok t)
        × IsShaped t n m
        × ((i' j' : ℕ)
            → slot t i' j' ≡ (
                if between to_i (to_i + rows) i' && between to_j (to_j + cols) j'
                then some (g i' j')
                else slot mat i' j'))
    unfolding set_items
    set_items_lem =
        let (t, e, (w, filled)) =
          for_loop_invariant _ RowsFilled rows i0 mat step (v, λ i' j'. ground arith) in
        (t, e, w, λ i' j'. filled i' j' ∙ ground arith)
      where
        widen :
            (t t' : Matrix F) (i : ℕ) (i' j' : ℕ)
            → i0 ≤ i
            → ti i + i0 ≡ to_i + i
            → slot t i' j' ≡ (
                if (leb to_i i' && ltb (i' + i0) (to_i + i)) && between to_j (to_j + cols) j'
                then some (g i' j')
                else slot mat i' j')
            → slot t' i' j' ≡ (
                if (ti i == i') && (leb to_j j' && ltb (j' + j0) (to_j + (j0 + cols)))
                then some (g (ti i) j')
                else slot t i' j')
            → slot t' i' j' ≡ (
                if (leb to_i i' && ltb (i' + i0) (to_i + (i + 1))) && between to_j (to_j + cols) j'
                then some (g i' j')
                else slot mat i' j')
        widen t t' i i' j' le at e f = ground arith

        step :
            (i : ℕ) (t : Matrix F)
            → i0 ≤ i
            → i < i0 + rows
            → RowsFilled i t
            → (t' : Matrix F) × (for_loop cols j0
                  (λ j t. value i j >>= λ item. set_item t (ti i) (tj j) item)
                  t
                ≡ ok t')
              × RowsFilled (i + 1) t'
        step i t le lt (w, filled) =
            let at = at_i i le lt in
            let (t', e, (w', row)) =
              set_row t n m (ti i) to_j j0 cols tj (value i) (g (ti i)) w (omega arith) fits_j
                (λ j le' lt'. (at_j j le' lt', each i j le lt le' lt')) in
            (t', e, (w', λ i' j'. widen t t' i i' j' le at (filled i' j') (row i' j')))
