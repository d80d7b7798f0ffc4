-- ===== src/Libc.antt =====
-- The functions of the C library on texts that the programs use, and `str2int` of their utils.c. A text
-- is its bytes before the zero byte; the end of what is read, `end_ptr`, is the text that is left.
pub mod Digits
pub mod Numbers
mod Examples
use cse344_assignments.Base.{
  ℕ, zero, suc, ◌+◌, ◌-◌, ◌*◌, ◌/◌, ◌%◌, ◌^◌, Bool, true, false, not, ◌&&◌, ◌||◌, List, [], ◌∷◌,
  ◌==◌, ltb, leb, if◌then◌else◌, guard, exited, int_overflow, Result, ok, ◌>>◌,
}

-- An integer: `negsuc n` is -(n + 1).
pub data ℤ : Type 0 where
  pos : ℕ → ℤ
  negsuc : ℕ → ℤ

abbrev pub int_max : ℕ
int_max = 2 ^ 31 - 1

abbrev pub long_max : ℕ
long_max = 2 ^ 63 - 1

-- The `int` with a bit pattern.
abbrev pub signed : ℕ → ℤ
signed w = if ltb int_max w then negsuc (2 ^ 32 - 1 - w) else pos w

-- The conversion of a `long` to `int`: its lower 32 bits.
abbrev pub to_int : ℤ → ℤ
to_int (pos n) = signed (n % 2 ^ 32)
to_int (negsuc n) = signed (2 ^ 32 - 1 - n % 2 ^ 32)

-- The `%d` of `sprintf` for a number that is not negative, with the digits after it.
unfoldable pub decimal_before : ℕ → ℕ → List ℕ → List ℕ
decimal_before zero n rest = rest
decimal_before (suc fuel) n rest =
    let digits = (b'0' + n % 10) ∷ rest in
    let more = decimal_before fuel (n / 10) digits in if n / 10 == 0 then digits else more

unfoldable pub decimal : ℕ → List ℕ
unfolding decimal_before
decimal n = decimal_before (suc n) n []

-- The `%d` of an integer.
unfoldable pub decimal_int : ℤ → List ℕ
decimal_int (pos n) = decimal n
decimal_int (negsuc n) = b'-' ∷ decimal (n + 1)

abbrev pub is_digit : ℕ → Bool
is_digit c = leb b'0' c && leb c b'9'

abbrev pub is_space : ℕ → Bool
is_space c = (c == b' ') || (leb 9 c && leb c 13)

-- The `<` of `int`.
abbrev pub lt_int : ℤ → ℤ → Bool
lt_int (pos a) (pos b) = ltb a b
lt_int (pos a) (negsuc b) = false
lt_int (negsuc a) (pos b) = true
lt_int (negsuc a) (negsuc b) = ltb b a

abbrev pub in_int : ℤ → Bool
in_int (pos n) = leb n int_max
in_int (negsuc n) = leb n int_max

-- A difference of natural numbers.
abbrev pub difference : ℕ → ℕ → ℤ
difference a b = if ltb a b then negsuc (b - a - 1) else pos (a - b)

abbrev pub sum_of : ℤ → ℤ → ℤ
sum_of (pos a) (pos b) = pos (a + b)
sum_of (pos a) (negsuc b) = difference a (b + 1)
sum_of (negsuc a) (pos b) = difference b (a + 1)
sum_of (negsuc a) (negsuc b) = negsuc (a + b + 1)

abbrev pub product_of : ℤ → ℤ → ℤ
product_of (pos a) (pos b) = pos (a * b)
product_of (pos a) (negsuc b) = difference 0 (a * (b + 1))
product_of (negsuc a) (pos b) = difference 0 ((a + 1) * b)
product_of (negsuc a) (negsuc b) = pos ((a + 1) * (b + 1))

-- A result of `int` arithmetic.
abbrev pub as_int : ℤ → Result ℤ
as_int z = guard (in_int z) int_overflow >> ok z

abbrev pub add_int : ℤ → ℤ → Result ℤ
add_int a b = as_int (sum_of a b)

abbrev pub mul_int : ℤ → ℤ → Result ℤ
mul_int a b = as_int (product_of a b)

-- The digits at the head of a text, after the value `acc`: the value and the text after them.
unfoldable pub read_digits : ℕ → List ℕ → ℕ × List ℕ
read_digits acc [] = (acc, [])
read_digits acc (c ∷ text) =
    let more = read_digits (acc * 10 + (c - b'0')) text in
    if is_digit c then more else (acc, c ∷ text)

-- What `strtol` with the base 10 leaves: the number, the text after it, whether `errno` is ERANGE, and
-- whether there was a digit.
pub record Strtol : Type 0 where
  pub num : ℤ
  pub end_ptr : List ℕ
  pub erange : Bool
  pub digits : Bool

abbrev pub starts_digit : List ℕ → Bool
starts_digit [] = false
starts_digit (c ∷ text) = is_digit c

-- A number after its sign, with the whole text for the case that there is none.
unfoldable pub strtol_digits : Bool → List ℕ → List ℕ → Strtol
unfolding read_digits
strtol_digits minus whole text =
    let read = read_digits 0 text in
    let n = read.0 in
    if not (starts_digit text)
    then record { num = pos 0; end_ptr = whole; erange = false; digits = false }
    else if minus
    then (if ltb (long_max + 1) n
        then record { num = negsuc long_max; end_ptr = read.1; erange = true; digits = true }
        else record {
          num = if n == 0 then pos 0 else negsuc (n - 1);
          end_ptr = read.1;
          erange = false;
          digits = true;
        })
    else (if ltb long_max n
        then record { num = pos long_max; end_ptr = read.1; erange = true; digits = true }
        else record { num = pos n; end_ptr = read.1; erange = false; digits = true })

unfoldable pub strtol_from : List ℕ → List ℕ → Strtol
unfolding strtol_digits
strtol_from whole [] = record { num = pos 0; end_ptr = whole; erange = false; digits = false }
strtol_from whole (c ∷ text) =
    let later = strtol_from whole text in
    if is_space c
    then later
    else if c == b'-'
    then strtol_digits true whole text
    else if c == b'+'
    then strtol_digits false whole text
    else strtol_digits false whole (c ∷ text)

unfoldable pub strtol : List ℕ → Strtol
unfolding strtol_from
strtol text = strtol_from text text

abbrev pub is_int : ℤ → ℕ → Bool
is_int (pos n) m = n == m
is_int (negsuc n) m = false

abbrev pub is_int_min : ℤ → Bool
is_int_min (pos n) = false
is_int_min (negsuc n) = n == int_max

-- `str2int` of utils.c: the number and the text after it.
unfoldable pub str2int : List ℕ → Result (ℤ × List ℕ)
unfolding strtol
str2int buf = do
  let r = strtol buf
  let num = to_int r.num
  guard (not ((r.erange && (is_int num int_max || is_int_min num)) || (r.erange && is_int num 0)))
      exited
  guard r.digits exited
  ok (num, r.end_ptr)
