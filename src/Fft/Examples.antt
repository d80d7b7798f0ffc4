-- ===== src/Fft/Examples.antt =====
-- The theorems on lines at the digits "0" and at the letters "d".
use cse344_assignments.Base.{
  ℕ, ◌≡◌, refl, List, length, replicate, ok, err, out_of_bounds, inl, Any, arith,
}
use cse344_assignments.Fft.{line_size, number_limit, str2complex, buf2complex}
use cse344_assignments.Fft.Lines.{numbers, buf2complex-str2complex, str2complex_overrun, Wide}

buf2complex-str2complex_example :
    (line : List ℕ) × (str2complex (replicate 32 b'0') ≡ ok line)
    × (length line ≡ line_size)
    × (buf2complex line ≡ ok (numbers number_limit (replicate 32 b'0')))
buf2complex-str2complex_example = buf2complex-str2complex (replicate 32 b'0') refl (omega arith)

letters-Wide : Any Wide (numbers number_limit (replicate 32 b'd'))
unfolding numbers
letters-Wide = inl (omega arith)

str2complex_overrun_example : str2complex (replicate 32 b'd') ≡ err out_of_bounds
str2complex_overrun_example = str2complex_overrun (replicate 32 b'd') letters-Wide
