-- ===== src/Matrices/Packets/Texts.antt =====
-- The text that `pack` writes, and the space that it has for it.
use cse344_assignments.Base.{
  ℕ, zero, suc, ◌+◌, ◌*◌, ◌/◌, ◌%◌, ◌≤◌, ◌<◌, ◌≡◌, refl, sym, ap, ◌∙◌, ◌⊎◌, inl, inr, true, false,
  Bool-cases, List, [], ◌∷◌, ◌++◌, length, length-append, ltb, leb, out_of_bounds, ok, err,
  >>-eq-ok, subst, All, arith,
}
use mathlib.Core.List.{append_assoc, append-nil}
use cse344_assignments.Matrices.{Matrix, get_item, set_item}
use cse344_assignments.Matrices.Product.{HasEntries, HasEntries-get_item}
use cse344_assignments.Matrices.Packets.{
  semicolon, entry_at, put_entry, entries_from, item_text, print_items,
}

pub row_of : (k n m : ℕ) → k < n * m → k / m < n
row_of k n m lt = grind arith

pub column_of : (k n m : ℕ) → k < n * m → k % m < m
column_of k n m lt = grind arith

module _ {F : Type 0} where
  entry_at_lem :
      (mat : Matrix F) (k : ℕ) (x : F)
      → get_item mat (k / mat.j) (k % mat.j) ≡ ok x
      → entry_at mat k ≡ ok x
  unfolding entry_at get_item
  entry_at_lem mat k x e = (>>-eq-ok _ _ e).1

  pub put_entry_lem :
      (mat r : Matrix F) (k : ℕ) (x : F)
      → set_item mat (k / mat.j) (k % mat.j) x ≡ ok r
      → put_entry mat k x ≡ ok r
  unfolding put_entry set_item
  put_entry_lem mat r k x e = (>>-eq-ok _ _ e).1

  module _ (m : ℕ) (f : ℕ → ℕ → F) where
    -- The entries of a matrix in the order of its rows.
    unfoldable pub values : ℕ → ℕ → List F
    values zero k = []
    values (suc rounds) k = f (k / m) (k % m) ∷ values rounds (k + 1)

  pub entries_lem :
      (mat : Matrix F) (n m : ℕ) (f : ℕ → ℕ → F)
      → HasEntries mat n m f
      → (rounds k : ℕ) → k + rounds ≤ n * m
      → entries_from rounds k mat ≡ ok (values m f rounds k)
  unfolding entries_from values
  entries_lem mat n m f v zero k le = refl
  entries_lem mat n m f v (suc rounds) k le =
      let lt : k < n * m = omega arith in
      let got =
        HasEntries-get_item mat n m f v (k / m) (k % m) (row_of k n m lt) (column_of k n m lt) in
      let now =
        entry_at_lem mat k (f (k / m) (k % m))
          (ap (λ j. get_item mat (k / j) (k % j)) v.shaped.cols ∙ got) in
      rw (now, entries_lem mat n m f v rounds (k + 1) (omega arith)) refl

module _ {F : Type 0} (render : F → List ℕ) where
  -- The items in a text before `rest`.
  unfoldable pub lines : List F → List ℕ → List ℕ
  lines [] rest = rest
  lines (x ∷ xs) rest = render x ++ (semicolon ∷ lines xs rest)

  pub lines-append :
      (xs : List F) (rest more : List ℕ) → lines xs rest ++ more ≡ lines xs (rest ++ more)
  unfolding lines
  lines-append [] rest more = refl
  lines-append (x ∷ xs) rest more =
      append_assoc (render x) (semicolon ∷ lines xs rest) more
      ∙ ap (λ t. render x ++ (semicolon ∷ t)) (lines-append xs rest more)

  -- What `print_items` leaves: the block is never enlarged in time.
  pub print_items_cases :
      (xs : List F) (text : List ℕ) (capacity : ℕ)
      → length text < capacity
      → (print_items render xs text capacity ≡ err out_of_bounds)
        ⊎ ((print_items render xs text capacity ≡ ok (text ++ lines xs []))
            × (length (text ++ lines xs []) < capacity))
  unfolding print_items lines
  print_items_cases [] text capacity lt =
      let same = append-nil text in
      inr (ap ok (sym same), subst (λ t. length t < capacity) (sym same) lt)
  print_items_cases (x ∷ xs) text capacity lt =
      elim (Bool-cases (ltb (length (item_text render x)) 20)) [
        | inr long ↦ inl (rw long refl)
        | inl short ↦ elim (Bool-cases (ltb (length (text ++ item_text render x)) capacity)) [
          | inr full ↦ inl (rw (short, full) refl)
          | inl fits ↦
              let text' = text ++ item_text render x in
              let kept : leb capacity (length text') ≡ false = ground arith in
              let same : text' ++ lines xs [] ≡ text ++ (render x ++ (semicolon ∷ lines xs [])) =
                append_assoc text (item_text render x) (lines xs [])
                ∙ ap (λ t. text ++ t) (append_assoc (render x) (semicolon ∷ []) (lines xs [])) in
              elim (print_items_cases xs text' capacity (ground arith)) [
                | inl over ↦ inl (rw (short, fits, kept) over)
                | inr (done, room) ↦ inr (
                  rw (short, fits, kept) (done ∙ ap ok same),
                  subst (λ t. length t < capacity) same room,
                )
              ]
        ]
      ]

  -- A text of short items is short.
  pub length-lines :
      (most : ℕ) (xs : List F)
      → All (λ x. length (render x) ≤ most) xs
      → length (lines xs []) ≤ (most + 1) * length xs
  unfolding lines
  length-lines most [] h = omega arith
  length-lines most (x ∷ xs) h =
      omega (
        arith,
        h.0,
        length-append {0} (render x) (semicolon ∷ lines xs []),
        length-lines most xs h.1,
      )

  pub length-lines_least :
      (least : ℕ) (xs : List F)
      → All (λ x. least ≤ length (render x)) xs
      → (least + 1) * length xs ≤ length (lines xs [])
  unfolding lines
  length-lines_least least [] h = omega arith
  length-lines_least least (x ∷ xs) h = omega (
    arith,
    h.0,
    length-append {0} (render x) (semicolon ∷ lines xs []),
    length-lines_least least xs h.1,
  )

  -- Short items are printed.
  pub print_items_fits :
      (xs : List F) (text : List ℕ) (capacity : ℕ)
      → All (λ x. length (render x) < 19) xs
      → length (text ++ lines xs []) < capacity
      → print_items render xs text capacity ≡ ok (text ++ lines xs [])
  unfolding print_items lines
  print_items_fits [] text capacity h lt = ap ok (sym (append-nil text))
  print_items_fits (x ∷ xs) text capacity h lt =
      let text' = text ++ item_text render x in
      let same : text' ++ lines xs [] ≡ text ++ (render x ++ (semicolon ∷ lines xs [])) =
        append_assoc text (item_text render x) (lines xs [])
        ∙ ap (λ t. text ++ t) (append_assoc (render x) (semicolon ∷ []) (lines xs [])) in
      let room : length (text' ++ lines xs []) < capacity =
        subst (λ t. length t < capacity) (sym same) lt in
      let below : length text' < capacity = omega (arith, length-append {0} text' (lines xs [])) in
      let item : length (item_text render x) < 20 =
        omega (arith, h.0, length-append {0} (render x) (semicolon ∷ [])) in
      let short : ltb (length (item_text render x)) 20 ≡ true = ground arith in
      let fits : ltb (length text') capacity ≡ true = ground arith in
      let kept : leb capacity (length text') ≡ false = ground arith in
      rw (short, fits, kept) (print_items_fits xs text' capacity h.1 room ∙ ap ok same)
