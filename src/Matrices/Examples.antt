-- ===== src/Matrices/Examples.antt =====
-- The theorems on matrices at 2×2 matrices of numbers.
use cse344_assignments.Base.{
  ◌++◌, ◌≤◌, List, true, if◌then◌else◌, ℕ, zero, suc, ◌+◌, ◌*◌, ◌<◌, ◌≡◌, refl, [], ◌∷◌, Option,
  none, some, ok, length, get_or, drop, arith,
}
use cse344_assignments.Libc.{decimal_before, decimal, read_digits, starts_digit}
use cse344_assignments.Libc.Digits.{read_digits-decimal, decimal-digit}
use cse344_assignments.Matrices.Packets.{semicolon, pack, unpack}
use cse344_assignments.Matrices.Packets.RoundTrip.{unpack-pack}
use cse344_assignments.Matrices.{Matrix}
use cse344_assignments.Matrices.Product.{HasEntries}

abbrev two_by_two : Matrix ℕ
two_by_two = record { buffer = (some 1 ∷ some 2 ∷ []) ∷ (some 3 ∷ some 4 ∷ []) ∷ []; i = 2; j = 2 }

abbrev entry : ℕ → ℕ → ℕ
entry i j = i * 2 + j + 1

add_product : ℕ → ℕ → ℕ → ℕ
add_product c p q = c + p * q

two_by_two-HasEntries : HasEntries two_by_two 2 2 entry
two_by_two-HasEntries = record {
  shaped = record { rows = refl; cols = refl; sized = refl; widths = widths };
  entries = entries;
}
  where
    widths : (i : ℕ) → i < 2 → length (get_or two_by_two.buffer i []) ≡ 2
    widths zero lt = refl
    widths (suc zero) lt = refl
    widths (suc (suc i)) lt = absurd (omega arith)

    entries :
        (i j : ℕ)
        → i < 2
        → j < 2
        → get_or {A = Option ℕ} (get_or two_by_two.buffer i []) j none ≡ some (entry i j)
    entries zero zero hi hj = refl
    entries zero (suc zero) hi hj = refl
    entries (suc zero) zero hi hj = refl
    entries (suc zero) (suc zero) hi hj = refl
    entries (suc (suc i)) j hi hj = absurd (omega arith)
    entries zero (suc (suc j)) hi hj = absurd (omega arith)
    entries (suc zero) (suc (suc j)) hi hj = absurd (omega arith)

-- Floats that are natural numbers, printed without a point.
natural_strtof : List ℕ → Option (ℕ × List ℕ)
unfolding read_digits
natural_strtof text = if starts_digit text then some (read_digits 0 text) else none

natural_reads :
    (x : ℕ) (rest : List ℕ)
    → natural_strtof (decimal x ++ (semicolon ∷ rest)) ≡ some (x, semicolon ∷ rest)
unfolding natural_strtof
natural_reads x rest =
    let (c, text, e, is) = decimal-digit x in
    let starts : starts_digit (decimal x ++ (semicolon ∷ rest)) ≡ true = rw e is in
    rw (starts, read_digits-decimal x (semicolon ∷ rest) refl) refl

two_by_two-short : (i j : ℕ) → i < 2 → j < 2 → length (decimal (entry i j)) ≤ 6
unfolding decimal decimal_before
two_by_two-short zero zero hi hj = omega arith
two_by_two-short zero (suc zero) hi hj = omega arith
two_by_two-short (suc zero) zero hi hj = omega arith
two_by_two-short (suc zero) (suc zero) hi hj = omega arith
two_by_two-short (suc (suc i)) j hi hj = absurd (omega arith)
two_by_two-short zero (suc (suc j)) hi hj = absurd (omega arith)
two_by_two-short (suc zero) (suc (suc j)) hi hj = absurd (omega arith)

two_short : length (decimal 2) ≤ 6
unfolding decimal decimal_before
two_short = omega arith

unpack-pack_example :
    (pkt : List ℕ) × (r : Matrix ℕ) × (pack decimal (λ (k : ℕ). k) two_by_two ≡ ok pkt)
    × (unpack natural_strtof (λ (k : ℕ). k) (pkt ++ (b'9' ∷ [])) ≡ ok (r, 6))
    × HasEntries r 2 2 entry
unpack-pack_example =
    unpack-pack decimal natural_strtof (λ (x : ℕ). x) natural_reads (λ (k : ℕ). k) (λ (k : ℕ). k)
      (λ k le. refl) two_by_two 2 2 entry two_by_two-HasEntries (b'9' ∷ []) (omega arith)
      (omega arith) two_short two_short two_by_two-short (omega arith)

-- The text of a float from 1000 on, such as "1000.000".
eight_bytes : ℕ → List ℕ
eight_bytes x = b'1' ∷ (b'0' ∷ (b'0' ∷ (b'0' ∷ (b'.' ∷ (b'0' ∷ (b'0' ∷ (b'0' ∷ [])))))))

-- Floats that are natural numbers, printed with three zeros behind the point.
thousandths : ℕ → List ℕ
thousandths x = decimal x ++ (b'.' ∷ (b'0' ∷ (b'0' ∷ (b'0' ∷ []))))

past_zeros : ℕ × List ℕ → Option (ℕ × List ℕ)
past_zeros (n, rest) = some (n, drop 4 rest)

thousandths_strtof : List ℕ → Option (ℕ × List ℕ)
thousandths_strtof text = if starts_digit text then past_zeros (read_digits 0 text) else none
