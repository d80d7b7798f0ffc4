-- ===== src/Matrices/Packets/RoundTrip.antt =====
-- A matrix that goes through a packet.
use cse344_assignments.Base.{
  ℕ, zero, suc, ◌+◌, ◌*◌, ◌/◌, ◌%◌, ◌^◌, ◌≤◌, ◌<◌, ◌≡◌, refl, ap, ap₂, ◌∙◌, inl, inr, Bool, true,
  false, ◌&&◌, Bool-cases, Option, some, List, [], ◌∷◌, ◌++◌, length, ◌==◌, ltb, leb, if◌then◌else◌,
  guard, int_overflow, Result, ok, ◌>>=◌, ◌>>◌, subst, All, All-map, arith,
}
use mathlib.Core.List.{append_assoc}
use cse344_assignments.Libc.{pos, int_max, decimal, decimal_int, str2int}
use cse344_assignments.Libc.Numbers.{str2int-decimal_int}
use cse344_assignments.Matrices.{Matrix, create_matrix, set_item}
use cse344_assignments.Matrices.Entries.{slot, IsShaped, create_matrix-IsShaped, set_item_lem}
use cse344_assignments.Matrices.Product.{HasEntries}
use cse344_assignments.Matrices.Packets.{
  semicolon, put_entry, entries_from, print_items, pack, number_read, str2float, read_items, unpack,
}
use cse344_assignments.Matrices.Packets.Texts.{
  put_entry_lem, values, row_of, column_of, entries_lem, lines, lines-append, length-lines,
  print_items_fits,
}

module _ {F : Type 0} where
  pub length-values : (m : ℕ) (f : ℕ → ℕ → F) (rounds k : ℕ) → length (values m f rounds k) ≡ rounds
  unfolding values
  length-values m f zero k = refl
  length-values m f (suc rounds) k = ap suc (length-values m f rounds (k + 1))

  pub All-values :
      (P : F → Type 0) (n m : ℕ) (f : ℕ → ℕ → F)
      → ((i j : ℕ) → i < n → j < m → P (f i j))
      → (rounds k : ℕ) → k + rounds ≤ n * m
      → All P (values m f rounds k)
  unfolding values
  All-values P n m f h zero k le = tt
  All-values P n m f h (suc rounds) k le =
      let lt : k < n * m = omega arith in
      (
        h (k / m) (k % m) (row_of k n m lt) (column_of k n m lt),
        All-values P n m f h rounds (k + 1) (omega arith),
      )

  -- The first `k` entries of a matrix are written.
  abbrev Written : (n m : ℕ) (g : ℕ → ℕ → F) (k : ℕ) (t : Matrix F) → Type 0
  Written n m g k t =
      IsShaped t n m × ((i j : ℕ) → i < n → j < m → i * m + j < k → slot t i j ≡ some (g i j))

quotient : (i m j : ℕ) → j < m → (i * m + j) / m ≡ i
quotient i m j lt = grind arith

remainder : (i m j : ℕ) → j < m → (i * m + j) % m ≡ j
remainder i m j lt = grind arith

-- An entry after the write of the entry `k`.
entry_step :
    {F : Type 0} (g : ℕ → ℕ → F) (s : Option F) (k m i j : ℕ)
    → j < m
    → i * m + j < k + 1
    → (i * m + j < k → s ≡ some (g i j))
    → (if (k / m == i) && (k % m == j) then some (g (k / m) (k % m)) else s) ≡ some (g i j)
entry_step g s k m i j hj lt old = elim (Bool-cases (ltb (i * m + j) k)) [
  | inl before ↦
      same (k / m) (k % m) (k / m == i) (k % m == j) (ground arith) (ground arith)
        (old (ground arith))
  | inr now ↦
      let at : i * m + j ≡ k = ground arith in
      let q : k / m ≡ i = subst (λ k. k / m ≡ i) at (quotient i m j hj) in
      let r : k % m ≡ j = subst (λ k. k % m ≡ j) at (remainder i m j hj) in
      let row : (k / m == i) ≡ true = ground arith in
      let column : (k % m == j) ≡ true = ground arith in rw (row, column) (ap some (ap₂ g q r))
]
  where
    same :
        (q r : ℕ) (a b : Bool)
        → (a ≡ true → q ≡ i)
        → (b ≡ true → r ≡ j)
        → s ≡ some (g i j)
        → (if a && b then some (g q r) else s) ≡ some (g i j)
    same q r true true ha hb e = ap some (ap₂ g (ha refl) (hb refl))
    same q r true false ha hb e = e
    same q r false b ha hb e = e

-- The numbers in a packet.
abbrev pub packed : {F : Type 0} → (ℕ → F) → ℕ → ℕ → (ℕ → ℕ → F) → List F
packed from_int n m f = from_int n ∷ (from_int m ∷ values m f (n * m) 0)

module _ {F : Type 0} (render : F → List ℕ) (from_int : ℕ → F) (mat : Matrix F) (n m : ℕ)
    (f : ℕ → ℕ → F) (v : HasEntries mat n m f) where
  -- `pack` by the sizes, up to what it prints.
  pack_lem :
      (text : Result (List ℕ))
      → print_items render (packed from_int n m f) [] ((n * m + 2) * 8) ≡ text
      → pack render from_int mat ≡ (
          text >>= λ body.
          guard (leb (length body) int_max) int_overflow
          >> ok (decimal (length body) ++ (semicolon ∷ body)))
  unfolding pack
  pack_lem text printed =
      ap (λ i. run i mat.j) v.shaped.rows
      ∙ ap (run n) v.shaped.cols
      ∙ ap (λ got. got >>= rest n m) (entries_lem mat n m f v (n * m) 0 (omega arith))
      ∙ ap (λ text. text >>= finish) printed
    where
      finish : List ℕ → Result (List ℕ)
      finish body =
          guard (leb (length body) int_max) int_overflow
          >> ok (decimal (length body) ++ (semicolon ∷ body))

      rest : ℕ → ℕ → List F → Result (List ℕ)
      rest i j items =
          print_items render (from_int i ∷ (from_int j ∷ items)) [] ((i * j + 2) * 8) >>= finish

      run : ℕ → ℕ → Result (List ℕ)
      run i j = entries_from (i * j) 0 mat >>= rest i j

  -- Numbers of at most 6 bytes fit into the block.
  pub pack_fits :
      length (render (from_int n)) ≤ 6
      → length (render (from_int m)) ≤ 6
      → ((i j : ℕ) → i < n → j < m → length (render (f i j)) ≤ 6)
      → 7 * (n * m + 2) ≤ int_max
      → (length (lines render (packed from_int n m f) []) ≤ 7 * (n * m + 2))
        × (pack render from_int mat
            ≡ ok (
                decimal (length (lines render (packed from_int n m f) []))
                ++ (semicolon ∷ lines render (packed from_int n m f) [])))
  pack_fits hn hm each small =
      let xs = packed from_int n m f in
      let short : All (λ x. length (render x) ≤ 6) xs =
        (hn, (hm, All-values (λ x. length (render x) ≤ 6) n m f each (n * m) 0 (omega arith))) in
      let size : length xs ≡ n * m + 2 = omega (arith, length-values m f (n * m) 0) in
      let bound : length (lines render xs []) ≤ 7 * (n * m + 2) =
        omega (arith, length-lines render 6 xs short, size) in
      let printed =
        print_items_fits render xs [] ((n * m + 2) * 8)
          (All-map (λ x. length (render x) ≤ 6) (λ x. length (render x) < 19) (λ x le. omega arith)
            xs short)
          (omega arith) in
      let fits : leb (length (lines render xs [])) int_max ≡ true = ground arith in
      (bound, pack_lem (ok (lines render xs [])) printed ∙ (rw fits refl))

module _ {F : Type 0} (render : F → List ℕ) (strtof : List ℕ → Option (F × List ℕ)) (near : F → F)
    (reads : (x : F) (rest : List ℕ)
      → strtof (render x ++ (semicolon ∷ rest)) ≡ some (near x, semicolon ∷ rest)) where
  str2float_lem :
      (x : F) (rest : List ℕ)
      → str2float strtof (render x ++ (semicolon ∷ rest)) ≡ ok (near x, semicolon ∷ rest)
  unfolding str2float
  str2float_lem x rest = ap (number_read strtof) (reads x rest)

  read_items_lem :
      (n m : ℕ) (f : ℕ → ℕ → F) (more : List ℕ) (rounds k : ℕ) (t : Matrix F)
      → k + rounds ≡ n * m
      → Written n m (λ i j. near (f i j)) k t
      → (r : Matrix F) × (read_items strtof rounds k t
            (semicolon ∷ lines render (values m f rounds k) more)
          ≡ ok r)
        × Written n m (λ i j. near (f i j)) (n * m) r
  unfolding read_items values lines
  read_items_lem n m f more zero k t e (shaped, w) =
      (t, refl, (shaped, λ i j hi hj lt. w i j hi hj (omega arith)))
  read_items_lem n m f more (suc rounds) k t e (shaped, w) =
      let lt : k < n * m = omega arith in
      let g = λ (i j : ℕ). near (f i j) in
      let x = f (k / m) (k % m) in
      let (t', put, shaped', entry) =
        set_item_lem t n m shaped (k / m) (k % m) (row_of k n m lt) (column_of k n m lt) (near x) in
      let put' : put_entry t k (near x) ≡ ok t' =
        put_entry_lem t t' k (near x)
          (ap (λ c. set_item t (k / c) (k % c) (near x)) shaped.cols ∙ put) in
      let rest = lines render (values m f rounds (k + 1)) more in
      let (r, later, written) = read_items_lem n m f more rounds (k + 1) t' (omega arith) (
        shaped',
        λ i j hi hj lt. entry i j ∙ entry_step g (slot t i j) k m i j hj lt (w i j hi hj),
      ) in
      (r, rw (str2float_lem x rest, put') later, written)

  module _ (from_int : ℕ → F) (to_nat : F → ℕ)
      (exact : (k : ℕ) → k ≤ 2 ^ 24 → to_nat (near (from_int k)) ≡ k) (mat : Matrix F) (n m : ℕ)
      (f : ℕ → ℕ → F) (v : HasEntries mat n m f) where
    abbrev pub items : List F
    items = packed from_int n m f

    pub unpack_lem :
        (more : List ℕ)
        → n ≤ 2 ^ 24
        → m ≤ 2 ^ 24
        → length (lines render items []) ≤ int_max
        → (r : Matrix F) × (unpack strtof to_nat (
              (decimal (length (lines render items [])) ++ (semicolon ∷ lines render items []))
              ++ more)
            ≡ ok (r, n * m + 2))
          × HasEntries r n m (λ i j. near (f i j))
    unfolding unpack lines create_matrix
    unpack_lem more hn hm small =
        let body = lines render items [] in
        let total = length body in
        let tail = lines render (values m f (n * m) 0) more in
        let text : (decimal total ++ (semicolon ∷ body)) ++ more
            ≡ decimal total ++ (semicolon ∷ lines render items more) =
          append_assoc (decimal total) (semicolon ∷ body) more
          ∙ ap (λ t. decimal total ++ (semicolon ∷ t)) (lines-append render items [] more) in
        let header : str2int (decimal total ++ (semicolon ∷ lines render items more))
            ≡ ok (pos total, semicolon ∷ lines render items more) =
          unfold decimal_int in
          (str2int-decimal_int (pos total) (semicolon ∷ lines render items more) small refl) in
        let rows = str2float_lem (from_int n) (render (from_int m) ++ (semicolon ∷ tail)) in
        let columns = str2float_lem (from_int m) tail in
        let (r, read, (shaped, written)) =
          read_items_lem n m f more (n * m) 0 (create_matrix n m) (omega arith)
            (create_matrix-IsShaped n m, λ i j hi hj lt. absurd (omega arith)) in
        (
          r,
          ap (unpack strtof to_nat) text
              ∙ rw (header, rows, columns, exact n hn, exact m hm, read) refl,
          record { shaped = shaped; entries = λ i j hi hj. written i j hi hj (grind arith) },
        )

    -- If strtof reads a printed number back to one near it and sizes up to 2^24 exactly, then for
    -- a matrix whose numbers, the sizes among them, print to at most 6 bytes each, with a total
    -- within int, pack returns a packet, and unpack of it, whatever follows it, returns a matrix
    -- of the same size with the near numbers.
    pub unpack-pack :
        (more : List ℕ)
        → n ≤ 2 ^ 24
        → m ≤ 2 ^ 24
        → length (render (from_int n)) ≤ 6
        → length (render (from_int m)) ≤ 6
        → ((i j : ℕ) → i < n → j < m → length (render (f i j)) ≤ 6)
        → 7 * (n * m + 2) ≤ int_max
        → (pkt : List ℕ) × (r : Matrix F) × (pack render from_int mat ≡ ok pkt)
          × (unpack strtof to_nat (pkt ++ more) ≡ ok (r, n * m + 2))
          × HasEntries r n m (λ i j. near (f i j))
    unpack-pack more hn hm rows columns each small =
        let (fits, done) = pack_fits render from_int mat n m f v rows columns each small in
        let (r, read, is) = unpack_lem more hn hm (omega (arith, fits, small)) in
        (_, r, done, read, is)
