-- ===== src/Canteen/Room.antt =====
-- A room of midterm-project/solution/source/program.c: an array of plates in shared memory. The loops
-- read the array from its start for `size` rounds.
pub mod Counts
pub mod Texts
use cse344_assignments.Base.{
  ℕ, zero, suc, ◌+◌, Option, none, some, List, [], ◌∷◌, ◌==◌, if◌then◌else◌, out_of_bounds, Result,
  guard, ltb, length, ◌++◌, ◌>>◌, ok, err, ◌>>=◌, load, store,
}
use cse344_assignments.Libc.{decimal}

-- `enum plate`.
abbrev pub plate_p : ℕ
plate_p = 0

abbrev pub plate_c : ℕ
plate_c = 1

abbrev pub plate_d : ℕ
plate_d = 2

abbrev pub plate_empty : ℕ
plate_empty = 3

abbrev pub food_kind : ℕ
food_kind = 3

-- A slot is what `next` returned; -1, `none`, is out of bounds.
unfoldable pub put_item : List ℕ → Option ℕ → ℕ → Result (List ℕ)
put_item room none p = err out_of_bounds
put_item room (some slot) p = store room slot p

unfoldable pub get_item : List ℕ → Option ℕ → Result (ℕ × List ℕ)
get_item room none = err out_of_bounds
get_item room (some slot) = do
  item ← load room slot
  room' ← store room slot plate_empty
  ok (item, room')

-- The loop of `next` from the index `i` on.
unfoldable pub next_from : ℕ → ℕ → List ℕ → ℕ → Result (Option ℕ)
next_from i zero p item = ok none
next_from i (suc rounds) [] item = err out_of_bounds
next_from i (suc rounds) (x ∷ p) item =
    let later = next_from (i + 1) rounds p item in if x == item then ok (some i) else later

unfoldable pub next : List ℕ → ℕ → ℕ → Result (Option ℕ)
unfolding next_from
next room size item = next_from 0 size room item

-- The loop of `item_number`.
unfoldable pub count_items : ℕ → List ℕ → ℕ → ℕ → Result ℕ
count_items zero p item total = ok total
count_items (suc rounds) [] item total = err out_of_bounds
count_items (suc rounds) (x ∷ p) item total =
    count_items rounds p item (if x == item then total + 1 else total)

unfoldable pub item_number : List ℕ → ℕ → ℕ → Result ℕ
unfolding count_items
item_number room size item = count_items size room item 0

-- The loop of `non_empty`.
unfoldable pub count_non_empty : ℕ → List ℕ → ℕ → Result ℕ
count_non_empty zero p total = ok total
count_non_empty (suc rounds) [] total = err out_of_bounds
count_non_empty (suc rounds) (x ∷ p) total =
    count_non_empty rounds p (if x == plate_empty then total else total + 1)

unfoldable pub non_empty : List ℕ → ℕ → Result ℕ
unfolding count_non_empty
non_empty room size = count_non_empty size room 0

-- The loop of `total_str`.
unfoldable pub count_foods : ℕ → List ℕ → ℕ → ℕ → ℕ → Result (ℕ × ℕ × ℕ)
count_foods zero r p c d = ok (p, c, d)
count_foods (suc rounds) [] p c d = err out_of_bounds
count_foods (suc rounds) (x ∷ r) p c d =
    count_foods rounds r (if x == plate_p then p + 1 else p) (if x == plate_c then c + 1 else c)
      (if x == plate_d then d + 1 else d)

-- "P:%d,C:%d,D:%d=%d".
unfoldable pub total_text : ℕ → ℕ → ℕ → List ℕ
total_text p c d =
    b'P'
    ∷ (b':'
        ∷ (decimal p
            ++ (b','
                ∷ (b'C'
                    ∷ (b':'
                        ∷ (decimal c
                            ++ (b','
                                ∷ (b'D'
                                    ∷ (b':' ∷ (decimal d ++ (b'=' ∷ decimal (p + c + d))))))))))))

-- `str` is of `capacity` bytes, with the zero byte.
unfoldable pub total_str : List ℕ → ℕ → ℕ → Result (List ℕ)
unfolding count_foods total_text
total_str room size capacity = do
  foods ← count_foods size room 0 0 0
  let str = total_text foods.0 foods.1 foods.2
  guard (ltb (length str) capacity) out_of_bounds
  ok str
