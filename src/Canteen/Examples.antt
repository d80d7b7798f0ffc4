-- ===== src/Canteen/Examples.antt =====
-- The theorems on the canteen at concrete inputs.
use cse344_assignments.Base.{ℕ, ◌≡◌, refl, some, List, [], ◌∷◌, ok, arith}
use cse344_assignments.Canteen.Room.{next, put_item, plate_empty}
use cse344_assignments.Canteen.Kitchen.{
  supplying, entering, posting, cooking, Kitchen, init_kitchen, Reach, start, later, wait_empty,
  put_plate, post_full,
}
use cse344_assignments.Canteen.Kitchen.Slots.{supplier_has_slot}

abbrev room : List ℕ
room = 1 ∷ 3 ∷ 0 ∷ 3 ∷ []

-- A kitchen of two slots and one cook, with one plate delivered and the supplier on its way to the next.
abbrev second : Kitchen
second = record {
  room = 0 ∷ 3 ∷ [];
  empty = 0;
  full = 1 ∷ 0 ∷ 0 ∷ [];
  supplier = entering;
  cooks = cooking ∷ [];
}

second-Reach : Reach 2 1 second
unfolding init_kitchen next put_item
second-Reach =
    let a : Reach 2 1 (record {
      room = 3 ∷ 3 ∷ [];
      empty = 1;
      full = 0 ∷ 0 ∷ 0 ∷ [];
      supplier = entering;
      cooks = cooking ∷ [];
    }) =
      later start (wait_empty refl (omega arith)) in
    let b : Reach 2 1 (record {
      room = 0 ∷ 3 ∷ [];
      empty = 1;
      full = 0 ∷ 0 ∷ 0 ∷ [];
      supplier = posting 0;
      cooks = cooking ∷ [];
    }) =
      later a (put_plate 0 {slot = some 0} (omega arith) refl refl refl) in
    let c : Reach 2 1 (record {
      room = 0 ∷ 3 ∷ [];
      empty = 1;
      full = 1 ∷ 0 ∷ 0 ∷ [];
      supplier = supplying;
      cooks = cooking ∷ [];
    }) =
      later b (post_full 0 refl) in
    later c (wait_empty refl (omega arith))

supplier_has_slot_example :
    (slot : ℕ) × (room' : List ℕ) × (next (0 ∷ 3 ∷ []) 2 plate_empty ≡ ok (some slot))
    × (put_item (0 ∷ 3 ∷ []) (some slot) 2 ≡ ok room')
supplier_has_slot_example = supplier_has_slot 2 1 second 2 second-Reach refl
