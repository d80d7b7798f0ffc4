-- ===== src/Libc/Examples.antt =====
-- The theorems on numbers in texts at the text "-27," and at a number that is no `int`.
use cse344_assignments.Base.{◌≡◌, refl, [], ◌∷◌, ◌++◌, ok, arith}
use cse344_assignments.Libc.{negsuc, decimal_int, str2int}
use cse344_assignments.Libc.Numbers.{str2int-decimal_int}

str2int-decimal_int_example :
    str2int (decimal_int (negsuc 26) ++ b',' ∷ []) ≡ ok (negsuc 26, b',' ∷ [])
str2int-decimal_int_example = str2int-decimal_int (negsuc 26) (b',' ∷ []) (omega arith) refl
