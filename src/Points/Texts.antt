-- ===== src/Points/Texts.antt =====
-- The points of a line of homework-2/solution/source/program.c as `points2bytes` prints them and
-- `buf2point` reads them. A coordinate is the integer that its `float` stands for: an `int`
-- is rounded to a significand of 24 bits. `str2int` of utils.c is that of Libc.
use cse344_assignments.Base.{
  ℕ, zero, suc, ◌+◌, ◌-◌, ◌*◌, ◌/◌, ◌%◌, ◌^◌, ltb, ◌||◌, ◌&&◌, arith, ◌≤◌, ◌<◌, ◌≡◌, refl, List, [],
  ◌∷◌, ◌++◌, map, ◌==◌, if◌then◌else◌, false, All, length, assertion, out_of_bounds, Result, ok,
  err, ◌>>=◌,
}
use cse344_assignments.Libc.{ℤ, pos, negsuc, int_max, decimal, decimal_int, starts_digit, str2int}
use cse344_assignments.Libc.Numbers.{str2int-decimal_int}

-- sprintf(temp, "(%u, %u), ", x, y), before what follows.
unfoldable pub point_text : ℕ × ℕ → List ℕ → List ℕ
point_text (x, y) rest =
    b'(' ∷ (decimal x ++ b',' ∷ (b' ' ∷ (decimal y ++ b')' ∷ (b',' ∷ (b' ' ∷ rest)))))

-- The first ten rounds of the loop of `points2bytes`.
unfoldable pub points_text : List (ℕ × ℕ) → List ℕ → List ℕ
unfolding point_text
points_text [] rest = rest
points_text (p ∷ points) rest = point_text p (points_text points rest)

-- assert(*p == c), and the text from there.
unfoldable pub check_char : ℕ → List ℕ → Result (List ℕ)
check_char c [] = err assertion
check_char c (x ∷ text) = if x == c then ok (x ∷ text) else err assertion

-- p + n, within the text.
unfoldable pub advance : ℕ → List ℕ → Result (List ℕ)
advance zero text = ok text
advance (suc n) [] = err out_of_bounds
advance (suc n) (x ∷ text) = advance n text

-- The weight of the last of the 24 bits of a number, by doubling; 8 rounds are enough for an `int`.
unfoldable pub ulp : ℕ → ℕ → ℕ → ℕ
ulp zero n u = u
ulp (suc rounds) n u = let larger = ulp rounds n (2 * u) in if ltb n (2 ^ 24 * u) then u else larger

-- The nearest multiple of that weight, and of two as near the even one.
unfoldable pub nearest_float : ℕ → ℕ
unfolding ulp
nearest_float n =
    let u = ulp 8 n 1 in
    let q = n / u in
    let r = n % u in if ltb u (2 * r) || ((2 * r == u) && (q % 2 == 1)) then (q + 1) * u else q * u

-- The conversion of an `int` to `float`.
unfoldable pub float_of_int : ℤ → ℤ
unfolding nearest_float
float_of_int (pos n) = pos (nearest_float n)
float_of_int (negsuc n) = negsuc (nearest_float (n + 1) - 1)

unfoldable pub buf2point : List ℕ → Result ((ℤ × ℤ) × List ℕ)
unfolding check_char advance float_of_int
buf2point buf = do
  opened ← check_char b'(' buf
  number ← advance 1 opened
  (x, end_ptr) ← str2int number
  comma ← check_char b',' end_ptr
  second ← advance 2 comma
  (y, end_ptr') ← str2int second
  closed ← check_char b')' end_ptr'
  rest ← advance 3 closed
  ok ((float_of_int x, float_of_int y), rest)

-- The loop of `read10points`.
unfoldable pub buf2points : ℕ → List ℕ → Result (List (ℤ × ℤ) × List ℕ)
unfolding buf2point
buf2points zero buf = ok ([], buf)
buf2points (suc n) buf = do
  (p, buf') ← buf2point buf
  (points, rest) ← buf2points n buf'
  ok (p ∷ points, rest)

-- Both coordinates are below 2^24.
abbrev pub FitsPoint : ℕ × ℕ → Type 0
FitsPoint p = (p.0 < 2 ^ 24) × (p.1 < 2 ^ 24)

abbrev pub int_point : ℕ × ℕ → ℤ × ℤ
int_point p = (pos p.0, pos p.1)

-- An `int` below 2^24 is exact as a `float`.
float_of_int_lem : (n : ℕ) → n < 2 ^ 24 → float_of_int (pos n) ≡ pos n
unfolding float_of_int nearest_float ulp
float_of_int_lem n lt = ground (arith, lt)

-- The first one that is not.
float_of_int_inexact : float_of_int (pos 16777217) ≡ pos 16777216
unfolding float_of_int nearest_float ulp
float_of_int_inexact = refl

buf2point-point_text :
    (x y : ℕ) (rest : List ℕ)
    → x < 2 ^ 24
    → y < 2 ^ 24
    → buf2point (point_text (x, y) rest) ≡ ok ((pos x, pos y), rest)
unfolding buf2point point_text
buf2point-point_text x y rest le le' =
    let second = decimal y ++ b')' ∷ (b',' ∷ (b' ' ∷ rest)) in
    rw
      (
        number x (b',' ∷ (b' ' ∷ (decimal y ++ b')' ∷ (b',' ∷ (b' ' ∷ rest))))) (omega arith) refl,
        number y (b')' ∷ (b',' ∷ (b' ' ∷ rest))) (omega arith) refl,
        float_of_int_lem x le,
        float_of_int_lem y le',
      )
      refl
  where
    number :
        (n : ℕ) (tail : List ℕ)
        → n ≤ int_max
        → starts_digit tail ≡ false
        → str2int (decimal n ++ tail) ≡ ok (pos n, tail)
    number n tail le other = unfold decimal_int in (str2int-decimal_int (pos n) tail le other)

-- For points whose coordinates are below 2^24, as many rounds of the loop of read10points as there
-- are points read the text that the loop of points2bytes prints for them back to those points, and
-- leave what follows.
pub buf2points-points_text :
    (points : List (ℕ × ℕ)) (rest : List ℕ)
    → All FitsPoint points
    → buf2points (length points) (points_text points rest) ≡ ok (map int_point points, rest)
unfolding buf2points points_text
buf2points-points_text [] rest h = refl
buf2points-points_text ((x, y) ∷ points) rest h =
    rw
      (
        buf2point-point_text x y (points_text points rest) h.0.0 h.0.1,
        buf2points-points_text points rest h.1,
      )
      refl
