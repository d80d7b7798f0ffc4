-- ===== src/Florists/Flowers.antt =====
-- The flowers of a florist in homework-5/solution/source/program.c: `frequency`, and the loop of
-- `read_single_florist` over the text that `sscanf` leaves in `flowers`. A text is its bytes before the
-- zero byte; `strtok_r` is that of the C library for the delimiters "," and " ".
pub mod Names
use cse344_assignments.Base.{
  ℕ, zero, suc, ◌+◌, ◌≤◌, ◌<◌, ◌≡◌, Bool, false, ◌||◌, List, [], ◌∷◌, ◌++◌, ◌==◌, if◌then◌else◌,
  take, All, length, out_of_bounds, Result, ok, err, ◌>>=◌,
}
use cse344_assignments.Florists.Choice.{name_length}

abbrev pub comma : ℕ
comma = b','

abbrev pub is_delimiter : ℕ → Bool
is_delimiter c = (c == comma) || (c == b' ')

abbrev pub count_char : List ℕ → ℕ → ℕ
count_char [] c = 0
count_char (x ∷ text) c = (if c == x then 1 else 0) + count_char text c

-- The loop reads on before it looks for the zero byte, so that an empty text is left.
unfoldable pub frequency : List ℕ → ℕ → Result ℕ
frequency [] c = err out_of_bounds
frequency (x ∷ text) c = ok (count_char (x ∷ text) c)

unfoldable pub skip_delimiters : List ℕ → List ℕ
skip_delimiters [] = []
skip_delimiters (c ∷ text) = if is_delimiter c then skip_delimiters text else c ∷ text

unfoldable pub token : List ℕ → List ℕ
token [] = []
token (c ∷ text) = if is_delimiter c then [] else c ∷ token text

unfoldable pub after_token : List ℕ → List ℕ
after_token [] = []
after_token (c ∷ text) = if is_delimiter c then text else after_token text

-- The `for` loop: a missing token is a null pointer, which `strncpy` reads.
unfoldable pub read_flowers : ℕ → List ℕ → Result (List (List ℕ))
unfolding skip_delimiters token after_token
read_flowers zero text = ok []
read_flowers (suc n) text = elim (skip_delimiters text) [
  | [] ↦ err out_of_bounds
  | c ∷ rest ↦
      (read_flowers n (after_token (c ∷ rest)) >>= λ names.
      ok (take name_length (token (c ∷ rest)) ∷ names))
]

-- The flowers of `read_single_florist`.
unfoldable pub flowers_of : List ℕ → Result (List (List ℕ))
unfolding frequency read_flowers
flowers_of flowers = frequency flowers comma >>= λ n. read_flowers (n + 1) flowers

-- A name of a flower: not empty, without a delimiter, and short enough.
abbrev pub IsName : List ℕ → Type 0
IsName name =
    (0 < length name) × (length name < name_length) × All (λ c. is_delimiter c ≡ false) name

-- The names with a comma and a space between them.
abbrev pub joined : List ℕ → List (List ℕ) → List ℕ
joined name [] = name
joined name (next ∷ names) = name ++ comma ∷ (b' ' ∷ joined next names)
