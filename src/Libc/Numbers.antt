-- ===== src/Libc/Numbers.antt =====
-- `str2int` of utils.c reads the number that `sprintf` writes.
use cse344_assignments.Base.{
  ℕ, ◌+◌, ◌%◌, ◌^◌, ◌≤◌, ◌≡◌, ◌∙◌, true, false, List, ◌∷◌, ◌++◌, arith, ok,
}
use cse344_assignments.Libc.{
  ℤ, pos, negsuc, int_max, long_max, signed, decimal, decimal_int, is_digit, starts_digit,
  strtol_digits, strtol_from, strtol, str2int,
}
use cse344_assignments.Libc.Digits.{read_digits-decimal, decimal-digit}

-- The digits of a number, after a plus or no sign.
pub strtol_digits-decimal :
    (whole rest : List ℕ) (n : ℕ)
    → n ≤ long_max
    → starts_digit rest ≡ false
    → strtol_digits false whole (decimal n ++ rest)
      ≡ record { num = pos n; end_ptr = rest; erange = false; digits = true }
unfolding strtol_digits
strtol_digits-decimal whole rest n le other =
    let (c, text, e, is) = decimal-digit n in
    let starts : starts_digit (decimal n ++ rest) ≡ true = rw e is in
    rw (starts, read_digits-decimal n rest other) (ground arith)

strtol_digits-decimal_minus :
    (whole rest : List ℕ) (n : ℕ)
    → n ≤ long_max
    → starts_digit rest ≡ false
    → strtol_digits true whole (decimal (n + 1) ++ rest)
      ≡ record { num = negsuc n; end_ptr = rest; erange = false; digits = true }
unfolding strtol_digits
strtol_digits-decimal_minus whole rest n le other =
    let (c, text, e, is) = decimal-digit (n + 1) in
    let starts : starts_digit (decimal (n + 1) ++ rest) ≡ true = rw e is in
    rw (starts, read_digits-decimal (n + 1) rest other) (ground arith)

pub strtol_from-digit :
    (whole text : List ℕ) (c : ℕ)
    → is_digit c ≡ true
    → strtol_from whole (c ∷ text) ≡ strtol_digits false whole (c ∷ text)
unfolding strtol_from
strtol_from-digit whole text c is = ground arith

strtol-decimal :
    (rest : List ℕ) (n : ℕ)
    → n ≤ long_max
    → starts_digit rest ≡ false
    → strtol (decimal n ++ rest)
      ≡ record { num = pos n; end_ptr = rest; erange = false; digits = true }
unfolding strtol
strtol-decimal rest n le other =
    let (c, text, e, is) = decimal-digit n in
    let step : strtol_from (decimal n ++ rest) (decimal n ++ rest)
        ≡ strtol_digits false (decimal n ++ rest) (decimal n ++ rest) =
      rw e (strtol_from-digit (c ∷ (text ++ rest)) (text ++ rest) c is) in
    step ∙ strtol_digits-decimal (decimal n ++ rest) rest n le other

strtol-decimal_int_negsuc :
    (rest : List ℕ) (n : ℕ)
    → n ≤ long_max
    → starts_digit rest ≡ false
    → strtol (decimal_int (negsuc n) ++ rest)
      ≡ record { num = negsuc n; end_ptr = rest; erange = false; digits = true }
unfolding strtol strtol_from decimal_int
strtol-decimal_int_negsuc rest n le other =
    strtol_digits-decimal_minus (b'-' ∷ (decimal (n + 1) ++ rest)) rest n le other

-- Whether an integer is an `int`.
abbrev pub FitsInt : ℤ → Type 0
FitsInt (pos n) = n ≤ int_max
FitsInt (negsuc n) = n ≤ int_max

-- str2int reads the decimal text of an int, followed by a text that begins with no digit, back to
-- that int, and leaves what follows.
pub str2int-decimal_int :
    (z : ℤ) (rest : List ℕ)
    → FitsInt z
    → starts_digit rest ≡ false
    → str2int (decimal_int z ++ rest) ≡ ok (z, rest)
unfolding str2int decimal_int
str2int-decimal_int (pos n) rest le other =
    rw (strtol-decimal rest n (omega arith) other) (ground arith)
str2int-decimal_int (negsuc n) rest le other =
    rw (strtol-decimal_int_negsuc rest n (omega arith) other) (ground arith)

-- str2int accepts the decimal text of every number below 2^63 and returns its lower 32 bits as an
-- int: a number beyond INT_MAX is not refused.
pub str2int_wraps :
    (n : ℕ) (rest : List ℕ)
    → n ≤ long_max
    → starts_digit rest ≡ false
    → str2int (decimal n ++ rest) ≡ ok (signed (n % 2 ^ 32), rest)
unfolding str2int
str2int_wraps n rest le other = rw (strtol-decimal rest n le other) (ground arith)
