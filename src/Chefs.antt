-- ===== src/Chefs.antt =====
-- The ingredients of homework-4/solution/source/program.c: the masks, the semaphores of a mask, and the
-- reading of the next supply.
pub mod Supply
pub mod Bakery
mod Examples
use cse344_assignments.Base.{
  ℕ, zero, suc, ◌+◌, ◌*◌, ◌/◌, ◌%◌, List, [], ◌∷◌, ◌==◌, if◌then◌else◌, Result, ok, err, ◌>>=◌,
  load, store, assertion,
}

abbrev pub milk : ℕ
milk = 2

abbrev pub flour : ℕ
flour = 4

abbrev pub walnuts : ℕ
walnuts = 8

abbrev pub sugar : ℕ
sugar = 16

-- `mask & bit` and `mask | bit`, for a power of 2 `bit`.
abbrev pub and_bit : ℕ → ℕ → ℕ
and_bit mask bit = (mask / bit) % 2 * bit

abbrev pub or_bit : ℕ → ℕ → ℕ
or_bit mask bit = if and_bit mask bit == 0 then mask + bit else mask

abbrev pub discrete_masks : List ℕ
discrete_masks =
    or_bit milk flour
    ∷ or_bit milk walnuts
    ∷ or_bit milk sugar
    ∷ or_bit flour walnuts
    ∷ or_bit flour sugar
    ∷ or_bit walnuts sugar
    ∷ []

unfoldable pub get_mask : ℕ → Result ℕ
get_mask index = load discrete_masks index

unfoldable pub mask_has : ℕ → ℕ → ℕ
mask_has mask ingredient = and_bit mask ingredient

-- The loop of `ingredient`: shifts to the left.
unfoldable pub shifts : ℕ → ℕ → ℕ
shifts zero result = result
shifts (suc n) result = shifts n (result * 2)

unfoldable pub ingredient : ℕ → ℕ
unfolding shifts
ingredient n = shifts n 2

-- The loop of `sem_of_ingredients` from `i` on: `index`, an array of two, and `j`.
unfoldable pub find_sems : ℕ → ℕ → ℕ → List ℕ → ℕ → Result (List ℕ)
unfolding mask_has ingredient
find_sems zero i mask index j = if j == 2 then ok index else err assertion
find_sems (suc rounds) i mask index j =
    let skip = find_sems rounds (i + 1) mask index j in
    let taken = store index j i >>= λ index'. find_sems rounds (i + 1) mask index' (j + 1) in
    if mask_has mask (ingredient i) == 0 then skip else taken

unfoldable pub sem_of_ingredients : ℕ → List ℕ → Result (List ℕ)
unfolding find_sems
sem_of_ingredients mask index = find_sems 4 0 mask index 0

-- The `switch` of `next_supply`.
unfoldable pub add_letter : ℕ → ℕ → Result ℕ
add_letter mask letter =
    if letter == b'M'
    then ok (or_bit mask milk)
    else if letter == b'F'
    then ok (or_bit mask flour)
    else if letter == b'S'
    then ok (or_bit mask sugar)
    else if letter == b'W'
    then ok (or_bit mask walnuts)
    else err assertion

-- The mask of the next three bytes of the file, FALSE at its end, and the rest of the file.
unfoldable pub next_supply : List ℕ → Result (ℕ × List ℕ)
unfolding add_letter
next_supply (first ∷ second ∷ newline ∷ fd) = do
  mask ← add_letter 0 first
  mask' ← add_letter mask second
  ok (mask', fd)
next_supply _ = ok (0, [])
