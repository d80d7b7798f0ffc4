-- ===== src/Server/Input.antt =====
-- `find_V` and `read_graph` of final-project/solution/source/server.c, on the bytes of the input file.
-- The file is read into a block of its own size, and both pass on texts that end with a zero byte: the
-- byte behind the block is taken to be zero. `strchr` and `strtok` are those of the C library for one
-- byte that is not zero: a zero byte within the file ends a text too. A null pointer that is read is out
-- of bounds. The size of the file is an `int`. The log is left out.
pub mod Lines
pub mod Reading
pub mod Edges
mod Examples
use cse344_assignments.Base.{
  ℕ, zero, suc, ◌+◌, ◌-◌, ◌^◌, Bool, false, List, [], ◌∷◌, ◌||◌, ◌==◌, ltb, leb, guard, ◌>>◌,
  if◌then◌else◌, length, Result, ok, err, out_of_bounds, out_of_fuel, int_overflow, ◌>>=◌,
}
use cse344_assignments.Libc.{ℤ, pos, negsuc, int_max, str2int}
use cse344_assignments.Server.Graph.{Graph, create_graph, add_edge}
use cse344_assignments.Server.Cache.{Cache, create_cache}

abbrev pub newline : ℕ
newline = 10

abbrev pub comment_delimiter : ℕ
comment_delimiter = b'#'

abbrev pub tab_delimiter : ℕ
tab_delimiter = 9

-- The text from the first `c` on; a null pointer, which is read, if a zero byte comes first.
unfoldable pub strchr : List ℕ → ℕ → Result (List ℕ)
strchr [] c = err out_of_bounds
strchr (x ∷ text) c =
    let later = strchr text c in
    if x == c then ok (x ∷ text) else if x == 0 then err out_of_bounds else later

abbrev pub is_comment : List ℕ → Bool
is_comment [] = false
is_comment (c ∷ line) = c == comment_delimiter

-- if (n > V) V = n;
abbrev pub larger : ℕ → ℤ → ℕ
larger V (pos n) = if ltb V n then n else V
larger V (negsuc n) = V

-- The two numbers of a line: at its beginning, and after its tab.
unfoldable pub numbers : List ℕ → Result (ℤ × ℤ)
unfolding strchr
numbers line = do
  (i, end) ← str2int line
  rest ← strchr line tab_delimiter
  (j, end') ← str2int rest
  ok (i, j)

-- The `if` of the loop of `find_V`.
unfoldable pub line_V : ℕ → List ℕ → Result ℕ
unfolding numbers
line_V V p =
    let number = numbers p >>= λ ij. ok (larger (larger V ij.0) ij.1) in
    if is_comment p then ok V else number

-- p = strchr(p, '\n') + 1
abbrev pub past : List ℕ → Result (List ℕ)
past [] = err out_of_bounds
past (c ∷ rest) = ok rest

abbrev pub next_line : List ℕ → Result (List ℕ)
next_line p = strchr p newline >>= past

unfoldable pub find_V_from : ℕ → ℕ → List ℕ → Result ℕ
unfolding line_V strchr
find_V_from fuel V [] = ok V
find_V_from zero V (c ∷ p) = err out_of_fuel
find_V_from (suc fuel) V (c ∷ p) = do
  V' ← line_V V (c ∷ p)
  p' ← next_line (c ∷ p)
  find_V_from fuel V' p'

unfoldable pub find_V : List ℕ → Result ℕ
unfolding find_V_from
find_V raw =
    find_V_from (length raw) 0 raw >>= λ V. if V == int_max then err int_overflow else ok (V + 1)

-- `strtok`: the newlines before the token, the token, and the text that the next call begins with.
unfoldable pub skip_newlines : List ℕ → List ℕ
skip_newlines [] = []
skip_newlines (c ∷ text) =
    let later = skip_newlines text in
    if c == newline then later else if c == 0 then [] else c ∷ text

unfoldable pub token_of : List ℕ → List ℕ
token_of [] = []
token_of (c ∷ text) =
    let later = token_of text in if (c == newline) || (c == 0) then [] else c ∷ later

unfoldable pub after_token : List ℕ → List ℕ
after_token [] = []
after_token (c ∷ text) =
    let later = after_token text in if c == newline then text else if c == 0 then [] else later

-- An `int` as a subscript: the bit pattern of a negative one is past the end of every array.
abbrev pub pattern_of : ℤ → ℕ
pattern_of (pos n) = n
pattern_of (negsuc n) = 2 ^ 32 - 1 - n

-- The `if` of the loop of `read_graph`.
unfoldable pub add_line : Graph → List ℕ → Result Graph
unfolding numbers
add_line graph token =
    let added = numbers token >>= λ ij. add_edge graph (pattern_of ij.0) (pattern_of ij.1) in
    if is_comment token then ok graph else added

unfoldable pub add_lines : ℕ → Graph → List ℕ → Result Graph
unfolding skip_newlines token_of after_token add_line
add_lines zero graph text = err out_of_fuel
add_lines (suc fuel) graph text = elim (skip_newlines text) [
  | [] ↦ ok graph
  | c ∷ rest ↦
      (add_line graph (token_of (c ∷ rest)) >>= λ graph'.
      add_lines fuel graph' (after_token (c ∷ rest)))
]

unfoldable pub read_graph : List ℕ → Result (Graph × Cache)
unfolding find_V add_lines
read_graph raw = do
  guard (leb (length raw) int_max) int_overflow
  V ← find_V raw
  graph ← add_lines (length raw + 1) (create_graph V) raw
  ok (graph, create_cache V)
