-- ===== src/Matrices/Children/Packet.antt =====
-- What `read_matrix` of homework-3/solution/source/program.c makes of a packet that `pack` returned.
use cse344_assignments.Base.{
  ℕ, zero, suc, ◌+◌, ◌-◌, ◌*◌, ◌/◌, ◌%◌, ◌^◌, ◌≤◌, ◌<◌, ◌≡◌, refl, sym, ap, ◌∙◌, inl, inr, true,
  Bool-cases, Option, some, List, [], ◌∷◌, ◌++◌, length, length-append, take, ◌==◌, leb, ok, arith,
}
use mathlib.Core.List.{append-nil}
use cse344_assignments.Libc.{pos, decimal, decimal_before, decimal_int, str2int}
use cse344_assignments.Libc.Numbers.{str2int-decimal_int}
use cse344_assignments.Matrices.{Matrix}
use cse344_assignments.Matrices.Product.{HasEntries}
use cse344_assignments.Matrices.Packets.{semicolon, pack, unpack}
use cse344_assignments.Matrices.Packets.RoundTrip.{packed, pack_fits, unpack_lem}
use cse344_assignments.Matrices.Packets.Texts.{lines, values}
use cse344_assignments.Matrices.Children.{read_matrix}

unfoldable pow10 : ℕ → ℕ
pow10 zero = 1
pow10 (suc k) = 10 * pow10 k

length-decimal_before :
    (k fuel n : ℕ) (rest : List ℕ)
    → n < pow10 (suc k)
    → length (decimal_before fuel n rest) ≤ suc k + length rest
unfolding decimal_before pow10
length-decimal_before k zero n rest lt = omega arith
length-decimal_before zero (suc fuel) n rest lt =
    let last : (n / 10 == 0) ≡ true = ground (arith, lt) in rw last (omega arith)
length-decimal_before (suc k) (suc fuel) n rest lt = elim (Bool-cases (n / 10 == 0)) [
  | inl last ↦ rw last (omega arith)
  | inr more ↦ rw more (
      omega
        (arith, length-decimal_before k fuel (n / 10) ((b'0' + n % 10) ∷ rest) (omega (arith, lt))))
]

take_append :
    {A : Type 0} (xs ys : List A) (n : ℕ) → take (length xs + n) (xs ++ ys) ≡ xs ++ take n ys
take_append [] ys n = let none : 0 + n ≡ n = omega arith in ap (λ k. take k ys) none
take_append (x ∷ xs) ys n =
    let one : suc (length xs) + n ≡ suc (length xs + n) = omega arith in
    ap (λ k. take k (x ∷ (xs ++ ys))) one ∙ ap (λ t. x ∷ t) (take_append xs ys n)

take_whole : {A : Type 0} (n : ℕ) (xs : List A) → length xs ≡ n → take n xs ≡ xs
take_whole zero [] e = refl
take_whole (suc n) [] e = refl
take_whole zero (x ∷ xs) e = absurd (omega arith)
take_whole (suc n) (x ∷ xs) e = ap (λ t. x ∷ t) (take_whole n xs (omega arith))

length-take_le : {A : Type 0} (n : ℕ) (xs : List A) → n ≤ length xs → length (take n xs) ≡ n
length-take_le zero xs le = refl
length-take_le (suc n) [] le = absurd (omega arith)
length-take_le (suc n) (x ∷ xs) le = ap suc (length-take_le n xs (omega arith))

-- The packet of a size.
abbrev sized : List ℕ → List ℕ
sized body = decimal (length body) ++ (semicolon ∷ body)

module _ {F : Type 0} (strtof : List ℕ → Option (F × List ℕ)) (to_nat : F → ℕ) where
  -- What is read of a packet, with a size of at most 9 digits, is the packet.
  read_matrix_lem :
      (body : List ℕ) (m : Matrix F) (k : ℕ)
      → length body < pow10 9
      → 9 ≤ length body
      → unpack strtof to_nat (sized body) ≡ ok (m, k)
      → read_matrix strtof to_nat (sized body) ≡ ok m
  unfolding read_matrix
  read_matrix_lem body m k small enough read =
      let pkt = sized body in
      let ld = length (decimal (length body)) in
      let digits : length (decimal (length body)) ≤ 9 =
        unfold decimal in
        (omega (arith, length-decimal_before 8 (suc (length body)) (length body) [] small)) in
      let whole : length (sized body) ≡ length (decimal (length body)) + suc (length body) =
        length-append {0} (decimal (length body)) (semicolon ∷ body) in
      let ten : 10 ≡ length (decimal (length body)) + suc (9 - length (decimal (length body))) =
        omega (arith, digits) in
      let first : leb 10 (length (sized body)) ≡ true = ground (arith, whole, enough) in
      let tail = take (9 - length (decimal (length body))) body in
      let head : take 10 (sized body) ≡ decimal (length body) ++ (semicolon ∷ tail) =
        ap (λ k. take k (sized body)) ten
        ∙ take_append (decimal (length body)) (semicolon ∷ body)
            (suc (9 - length (decimal (length body)))) in
      let total : str2int (take 10 (sized body)) ≡ ok (pos (length body), semicolon ∷ tail) =
        ap str2int head
        ∙ (unfold decimal_int in
            (str2int-decimal_int (pos (length body)) (semicolon ∷ tail)
              (unfold pow10 in (omega (arith, small))) refl)) in
      let end : length tail ≡ 9 - length (decimal (length body)) =
        length-take_le (9 - length (decimal (length body))) body (omega (arith, enough)) in
      let size : length body + ((10 - suc (length tail)) + 1) ≡ length (sized body) =
        omega (arith, end, digits, whole) in
      let more : leb 1 (length (semicolon ∷ tail)) ≡ true = ground arith in
      let all : leb (length (sized body)) (length (sized body)) ≡ true = ground arith in
      let text : take (length (sized body)) (sized body) ≡ sized body =
        take_whole (length (sized body)) (sized body) refl in
      rw (first, total, more, size, first, all, text, read) refl

module _ {F : Type 0} (render : F → List ℕ) (strtof : List ℕ → Option (F × List ℕ)) (near : F → F)
    (reads : (x : F) (rest : List ℕ)
      → strtof (render x ++ (semicolon ∷ rest)) ≡ some (near x, semicolon ∷ rest))
    (longer : (x : F) → 5 ≤ length (render x)) (from_int : ℕ → F) (to_nat : F → ℕ)
    (exact : (k : ℕ) → k ≤ 2 ^ 24 → to_nat (near (from_int k)) ≡ k) where
  -- The packet of a matrix of `n` rows and columns, as `read_matrix` reads it.
  pub read_matrix-pack :
      (mat : Matrix F) (n : ℕ) (f : ℕ → ℕ → F)
      → HasEntries mat n n f
      → n ≤ 2 ^ 24
      → length (render (from_int n)) ≤ 6
      → ((i j : ℕ) → i < n → j < n → length (render (f i j)) ≤ 6)
      → 7 * (n * n + 2) < 1000000000
      → (s : List ℕ) × (q : Matrix F) × (pack render from_int mat ≡ ok s)
        × (read_matrix strtof to_nat s ≡ ok q)
        × HasEntries q n n (λ i j. near (f i j))
  read_matrix-pack mat n f v le short each small =
      let body = lines render (packed from_int n n f) [] in
      let (fits, done) =
        pack_fits render from_int mat n n f v short short each (omega (arith, small)) in
      let (q, read, is) =
        unpack_lem render strtof near reads from_int to_nat exact mat n n f v [] le le
          (omega (arith, fits, small)) in
      let read' : unpack strtof to_nat (sized (lines render (packed from_int n n f) []))
          ≡ ok (q, n * n + 2) =
        ap (unpack strtof to_nat)
          (sym (append-nil (sized (lines render (packed from_int n n f) []))))
        ∙ read in
      (
        sized body,
        q,
        done,
        read_matrix_lem strtof to_nat (lines render (packed from_int n n f) []) q (n * n + 2)
            (unfold pow10 in (omega (arith, fits, small))) enough read',
        is,
      )
    where
      enough : 9 ≤ length (lines render (packed from_int n n f) [])
      enough =
          let xs = values n f (n * n) 0 in
          unfold lines in
          (omega (
            arith,
            longer (from_int n),
            length-append {0} (render (from_int n))
                (semicolon ∷ lines render (from_int n ∷ values n f (n * n) 0) []),
            length-append {0} (render (from_int n))
                (semicolon ∷ lines render (values n f (n * n) 0) []),
          ))
