-- ===== src/Server/Input/Lines.antt =====
-- The lines of an input file of final-project/solution/source/server.c, as the two passes read them.
use cse344_assignments.Base.{
  ℕ, zero, suc, ◌+◌, ◌/◌, ◌%◌, ◌≤◌, ◌<◌, ◌≡◌, ◌≢◌, refl, ap, ◌∙◌, Bool-cases, true, false, inl, inr,
  List, [], ◌∷◌, ◌++◌, ◌==◌, ==-false, All, All-append, All-map, ok, arith,
}
use cse344_assignments.Libc.{
  pos, int_max, decimal, decimal_before, decimal_int, is_digit, starts_digit, strtol_from, strtol,
  strtol_digits, str2int,
}
use cse344_assignments.Libc.Digits.{decimal-digit}
use cse344_assignments.Libc.Numbers.{str2int-decimal_int, strtol_from-digit, strtol_digits-decimal}
use cse344_assignments.Server.Input.{
  newline, comment_delimiter, tab_delimiter, strchr, numbers, token_of, after_token,
}

-- A text without the byte `c`.
abbrev pub Without : ℕ → List ℕ → Type 0
Without c text = All (λ x. x ≢ c) text

pub strchr_lem :
    (c : ℕ) (xs rest : List ℕ)
    → Without c xs
    → Without 0 xs
    → strchr (xs ++ c ∷ rest) c ≡ ok (c ∷ rest)
unfolding strchr
strchr_lem c [] rest h k = ground arith
strchr_lem c (x ∷ xs) rest h k =
    rw (==-false x c h.0, ==-false x 0 k.0) (strchr_lem c xs rest h.1 k.1)

pub token_of_lem :
    (xs rest : List ℕ) → Without newline xs → Without 0 xs → token_of (xs ++ newline ∷ rest) ≡ xs
unfolding token_of
token_of_lem [] rest h k = refl
token_of_lem (x ∷ xs) rest h k =
    rw (==-false x newline h.0, ==-false x 0 k.0) (ap (λ t. x ∷ t) (token_of_lem xs rest h.1 k.1))

pub after_token_lem :
    (xs rest : List ℕ)
    → Without newline xs
    → Without 0 xs
    → after_token (xs ++ newline ∷ rest) ≡ rest
unfolding after_token
after_token_lem [] rest h k = refl
after_token_lem (x ∷ xs) rest h k =
    rw (==-false x newline h.0, ==-false x 0 k.0) (after_token_lem xs rest h.1 k.1)

-- The digits of a number.
decimal_before-All :
    (fuel n : ℕ) (rest : List ℕ)
    → All (λ c. is_digit c ≡ true) rest
    → All (λ c. is_digit c ≡ true) (decimal_before fuel n rest)
unfolding decimal_before
decimal_before-All zero n rest h = h
decimal_before-All (suc fuel) n rest h =
    let d : is_digit (b'0' + n % 10) ≡ true = ground arith in
    elim (Bool-cases (n / 10 == 0)) [
      | inl last ↦ rw last (d, h)
      | inr more ↦ rw more (decimal_before-All fuel (n / 10) ((b'0' + n % 10) ∷ rest) (d, h))
    ]

decimal-All : (n : ℕ) → All (λ c. is_digit c ≡ true) (decimal n)
unfolding decimal
decimal-All n = decimal_before-All (suc n) n [] tt

pub Without-decimal : (c n : ℕ) → is_digit c ≡ false → Without c (decimal n)
Without-decimal c n other =
    All-map (λ x. is_digit x ≡ true) (λ x. x ≢ c) (λ x is e. digit_ne x is e) (decimal n)
      (decimal-All n)
  where
    digit_ne : (x : ℕ) → is_digit x ≡ true → x ≢ c
    digit_ne x is e = ground arith

-- A number after a tab.
str2int-tab :
    (n : ℕ) (rest : List ℕ)
    → n ≤ int_max
    → starts_digit rest ≡ false
    → str2int (tab_delimiter ∷ (decimal n ++ rest)) ≡ ok (pos n, rest)
unfolding str2int strtol
str2int-tab n rest le other =
    let read = at (tab_delimiter ∷ (decimal n ++ rest)) in rw read (ground arith)
  where
    at :
        (whole : List ℕ)
        → strtol_from whole (tab_delimiter ∷ (decimal n ++ rest))
          ≡ record { num = pos n; end_ptr = rest; erange = false; digits = true }
    at whole =
        let (c, text, e, is) = decimal-digit n in
        let step : strtol_from whole (decimal n ++ rest)
            ≡ strtol_digits false whole (decimal n ++ rest) =
          rw e (strtol_from-digit whole (text ++ rest) c is) in
        unfold strtol_from in (step ∙ strtol_digits-decimal whole rest n (omega arith) other)

-- A line as the file has it: a comment, or an edge.
pub data Line : Type 0 where
  comment : List ℕ → Line
  edge_line : ℕ → ℕ → Line

-- Its bytes before the newline.
abbrev pub content : Line → List ℕ
content (comment text) = comment_delimiter ∷ text
content (edge_line i j) = decimal i ++ tab_delimiter ∷ decimal j

-- A comment of one line, and vertices below `INT_MAX`.
abbrev pub IsLine : Line → Type 0
IsLine (comment text) = Without newline text
IsLine (edge_line i j) = (i < int_max) × (j < int_max)

pub Without-content : (l : Line) → IsLine l → Without newline (content l)
Without-content (comment text) h = (λ e. absurd (omega arith), h)
Without-content (edge_line i j) h =
    All-append (λ x. x ≢ newline) (decimal i) (tab_delimiter ∷ decimal j)
      (Without-decimal newline i refl) (λ e. absurd (omega arith), Without-decimal newline j refl)

-- A comment without a zero byte.
abbrev pub IsText : Line → Type 0
IsText (comment text) = Without 0 text
IsText (edge_line i j) = Unit

pub Without-text : (l : Line) → IsText l → Without 0 (content l)
Without-text (comment text) h = (λ e. absurd (omega arith), h)
Without-text (edge_line i j) h =
    All-append (λ x. x ≢ 0) (decimal i) (tab_delimiter ∷ decimal j) (Without-decimal 0 i refl)
      (λ e. absurd (omega arith), Without-decimal 0 j refl)

-- A line is not empty, and begins with a byte that is no newline and not zero.
pub content_first :
    (l : Line) → (c : ℕ) × (text : List ℕ) × (content l ≡ c ∷ text) × (c ≢ newline) × (c ≢ 0)
content_first (comment text) =
    (comment_delimiter, text, refl, λ e. absurd (omega arith), λ e. absurd (omega arith))
content_first (edge_line i j) =
    let (c, text, e, is) = decimal-digit i in
    (
      c,
      text ++ tab_delimiter ∷ decimal j,
      ap (λ t. t ++ tab_delimiter ∷ decimal j) e,
      λ p. ground arith,
      λ p. ground arith,
    )

pub numbers_lem :
    (i j : ℕ) (tail : List ℕ)
    → i ≤ int_max
    → j ≤ int_max
    → starts_digit tail ≡ false
    → numbers (decimal i ++ tab_delimiter ∷ (decimal j ++ tail)) ≡ ok (pos i, pos j)
unfolding numbers
numbers_lem i j tail le le' other =
    let first : str2int (decimal i ++ tab_delimiter ∷ (decimal j ++ tail))
        ≡ ok (pos i, tab_delimiter ∷ (decimal j ++ tail)) =
      unfold decimal_int in
      (str2int-decimal_int (pos i) (tab_delimiter ∷ (decimal j ++ tail)) le refl) in
    rw
      (
        first,
        strchr_lem tab_delimiter (decimal i) (decimal j ++ tail)
            (Without-decimal tab_delimiter i refl) (Without-decimal 0 i refl),
        str2int-tab j tail le' other,
      )
      refl
