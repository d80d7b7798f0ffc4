-- ===== src/Canteen/Room/Texts.antt =====
-- The text that `total_str` makes of a room.
use cse344_assignments.Base.{
  ℕ, ◌+◌, ◌≤◌, ◌≡◌, refl, ap, ◌∙◌, List, [], ◌∷◌, ◌++◌, length, length-append, ◌==◌, ltb,
  if◌then◌else◌, guard, ok, err, out_of_bounds, ◌>>◌, tally, arith, false,
}
use cse344_assignments.Libc.{decimal}
use cse344_assignments.Libc.Digits.{length-decimal_one, length-decimal_two}
use cse344_assignments.Canteen.Room.{plate_p, plate_c, plate_d, count_foods, total_text, total_str}
use cse344_assignments.Canteen.Room.Counts.{plates, is_kind}

pub count_foods_lem :
    (room : List ℕ) (p c d : ℕ)
    → count_foods (length room) room p c d
      ≡ ok (p + plates plate_p room, c + plates plate_c room, d + plates plate_d room)
unfolding count_foods is_kind tally
count_foods_lem [] p c d = ap ok (ground arith)
count_foods_lem (x ∷ room) p c d =
    count_foods_lem room (if x == plate_p then p + 1 else p) (if x == plate_c then c + 1 else c)
      (if x == plate_d then d + 1 else d)
    ∙ ap ok (ground arith)

counted_foods :
    (room : List ℕ)
    → count_foods (length room) room 0 0 0
      ≡ ok (plates plate_p room, plates plate_c room, plates plate_d room)
counted_foods room = count_foods_lem room 0 0 0 ∙ ap ok (ground arith)

-- The total counts the three kinds.
abbrev pub room_text : List ℕ → List ℕ
room_text room = total_text (plates plate_p room) (plates plate_c room) (plates plate_d room)

length-total_text :
    (p c d : ℕ)
    → length (total_text p c d)
      ≡ 9
        + length (decimal p)
        + length (decimal c)
        + length (decimal d)
        + length (decimal (p + c + d))
unfolding total_text
length-total_text p c d =
    let total = decimal (p + c + d) in
    let from_d = b'=' ∷ total in
    let from_c = b',' ∷ (b'D' ∷ (b':' ∷ (decimal d ++ from_d))) in
    let from_p = b',' ∷ (b'C' ∷ (b':' ∷ (decimal c ++ from_c))) in
    omega (
      arith,
      length-append {0} (decimal p) from_p,
      length-append {0} (decimal c) from_c,
      length-append {0} (decimal d) from_d,
    )

-- x
pub total_str_lem :
    (room : List ℕ) (capacity : ℕ)
    → total_str room (length room) capacity
      ≡ (guard (ltb (length (room_text room)) capacity) out_of_bounds >> ok (room_text room))
unfolding total_str
total_str_lem room capacity = rw (counted_foods room) refl

-- For a room with at least ten plates each of the first two kinds, the text of total_str does not
-- fit into the 16 bytes that a student gives it.
pub total_str_overrun :
    (room : List ℕ)
    → 10 ≤ plates plate_p room
    → 10 ≤ plates plate_c room
    → total_str room (length room) 16 ≡ err out_of_bounds
total_str_overrun room some_p some_c =
    let p = plates plate_p room in
    let c = plates plate_c room in
    let d = plates plate_d room in
    let long : 16 ≤ length (room_text room) = omega (
      arith,
      length-total_text p c d,
      length-decimal_two p some_p,
      length-decimal_two c some_c,
      length-decimal_one d,
      length-decimal_two (p + c + d) (omega arith),
    ) in
    let no : ltb (length (room_text room)) 16 ≡ false = ground arith in
    total_str_lem room 16 ∙ (rw no refl)
