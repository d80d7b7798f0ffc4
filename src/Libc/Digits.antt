-- ===== src/Libc/Digits.antt =====
-- The digits of a number read back to it.
use cse344_assignments.Base.{
  ℕ, zero, suc, ◌+◌, ◌-◌, ◌*◌, ◌/◌, ◌%◌, ◌<◌, ◌≤◌, ◌≡◌, refl, ap, ◌∙◌, true, false, List, [], ◌∷◌,
  ◌++◌, ◌==◌, Bool-cases, length, arith, inl, inr,
}
use cse344_assignments.Libc.{decimal_before, decimal, is_digit, read_digits, starts_digit}

decimal_before-append :
    (fuel n : ℕ) (rest more : List ℕ)
    → decimal_before fuel n rest ++ more ≡ decimal_before fuel n (rest ++ more)
unfolding decimal_before
decimal_before-append zero n rest more = refl
decimal_before-append (suc fuel) n rest more =
    ground (arith, decimal_before-append fuel (n / 10) ((b'0' + n % 10) ∷ rest) more)

-- The digits of `n` carry on with `n` itself.
read_digits-decimal_before :
    (fuel n : ℕ) (rest : List ℕ)
    → n < fuel
    → read_digits 0 (decimal_before fuel n rest) ≡ read_digits n rest
unfolding decimal_before
read_digits-decimal_before zero n rest lt = absurd (omega arith)
read_digits-decimal_before (suc fuel) n rest lt = elim (Bool-cases (n / 10 == 0)) [
  | inl last ↦ rw last (digit_step (n % 10) 0 n rest (omega arith) (ground arith))
  | inr more ↦ rw more (
      read_digits-decimal_before fuel (n / 10) ((b'0' + n % 10) ∷ rest) (ground arith)
      ∙ digit_step (n % 10) (n / 10) n rest (omega arith) (omega arith))
]
  where
    digit_step :
        (d acc n : ℕ) (rest : List ℕ)
        → d < 10
        → acc * 10 + d ≡ n
        → read_digits acc ((b'0' + d) ∷ rest) ≡ read_digits n rest
    digit_step d acc n rest lt e =
        let is : is_digit (b'0' + d) ≡ true = ground arith in
        let value : acc * 10 + (b'0' + d - b'0') ≡ n = omega arith in
        unfold read_digits in (rw is (ap (λ k. read_digits k rest) value))

-- A text that goes on with something else than a digit.
pub read_digits-decimal :
    (n : ℕ) (rest : List ℕ)
    → starts_digit rest ≡ false
    → read_digits 0 (decimal n ++ rest) ≡ (n, rest)
unfolding decimal
read_digits-decimal n rest other =
    ap (read_digits 0) (decimal_before-append (suc n) n [] rest)
    ∙ read_digits-decimal_before (suc n) n rest (omega arith)
    ∙ stop rest other
  where
    stop : (rest : List ℕ) → starts_digit rest ≡ false → read_digits n rest ≡ (n, rest)
    stop [] e = unfold read_digits in refl
    stop (c ∷ rest) e = unfold read_digits in (rw e)

digit_lem : (n : ℕ) → is_digit (b'0' + n % 10) ≡ true
digit_lem n = let lt : n % 10 < 10 = omega arith in ground arith

-- More digits before a digit: the head is a digit.
decimal_before-digit :
    (fuel n c : ℕ) (text : List ℕ)
    → is_digit c ≡ true
    → (c' : ℕ) × (text' : List ℕ) × (decimal_before fuel n (c ∷ text) ≡ c' ∷ text')
      × (is_digit c' ≡ true)
unfolding decimal_before
decimal_before-digit zero n c text is = (c, text, refl, is)
decimal_before-digit (suc fuel) n c text is =
    let is' : is_digit (b'0' + n % 10) ≡ true = digit_lem n in
    let (c', text', e, is'') = decimal_before-digit fuel (n / 10) (b'0' + n % 10) (c ∷ text) is' in
    elim (Bool-cases (n / 10 == 0)) [
      | inl last ↦ (b'0' + n % 10, c ∷ text, rw last refl, is')
      | inr more ↦ (c', text', rw more e, is'')
    ]

-- The first digit.
pub decimal-digit :
    (n : ℕ) → (c : ℕ) × (text : List ℕ) × (decimal n ≡ c ∷ text) × (is_digit c ≡ true)
unfolding decimal decimal_before
decimal-digit n =
    let is' : is_digit (b'0' + n % 10) ≡ true = digit_lem n in
    let (c', text', e, is'') = decimal_before-digit n (n / 10) (b'0' + n % 10) [] is' in
    elim (Bool-cases (n / 10 == 0)) [
      | inl last ↦ (b'0' + n % 10, [], rw last refl, is')
      | inr more ↦ (c', text', rw more e, is'')
    ]

length-decimal_before :
    (fuel n : ℕ) (rest : List ℕ) → length rest ≤ length (decimal_before fuel n rest)
unfolding decimal_before
length-decimal_before zero n rest = omega arith
length-decimal_before (suc fuel) n rest =
    ground (arith, length-decimal_before fuel (n / 10) ((b'0' + n % 10) ∷ rest))

-- A number has a digit, and one from 10 on has two.
pub length-decimal_one : (n : ℕ) → 1 ≤ length (decimal n)
unfolding decimal decimal_before
length-decimal_one n = ground (arith, length-decimal_before n (n / 10) ((b'0' + n % 10) ∷ []))

pub length-decimal_two : (n : ℕ) → 10 ≤ n → 2 ≤ length (decimal n)
unfolding decimal decimal_before
length-decimal_two zero le = absurd (omega arith)
length-decimal_two (suc n) le =
    let more : (suc n / 10 == 0) ≡ false = ground arith in
    rw more (
      ground (
        arith,
        length-decimal_before n (suc n / 10 / 10)
            ((b'0' + suc n / 10 % 10) ∷ ((b'0' + suc n % 10) ∷ [])),
      ))

pub length-decimal_three : (n : ℕ) → 100 ≤ n → 3 ≤ length (decimal n)
unfolding decimal decimal_before
length-decimal_three zero le = absurd (omega arith)
length-decimal_three (suc zero) le = absurd (omega arith)
length-decimal_three (suc (suc n)) le =
    let k = suc (suc n) in
    let more : (k / 10 == 0) ≡ false = ground arith in
    let much : (k / 10 / 10 == 0) ≡ false = ground arith in
    rw (more, much)
      (ground (
        arith,
        length-decimal_before n (k / 10 / 10 / 10)
            ((b'0' + k / 10 / 10 % 10) ∷ ((b'0' + k / 10 % 10) ∷ ((b'0' + k % 10) ∷ []))),
      ))
