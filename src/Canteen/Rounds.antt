-- ===== src/Canteen/Rounds.antt =====
-- The theorems on the counter at a round of one cook and one student, with three places and one table.
use cse344_assignments.Base.{
  ℕ, ◌*◌, ◌≡◌, ◌<◌, refl, some, [], ◌∷◌, get_elem?, ok, err, out_of_bounds, replicate, ◌++◌, tally,
  arith,
}
use cse344_assignments.Canteen.Room.{
  next, next_from, put_item, get_item, plate_empty, food_kind, total_str,
}
use cse344_assignments.Canteen.Room.Texts.{total_str_overrun}
use cse344_assignments.Canteen.Room.Counts.{is_kind}
use cse344_assignments.Canteen.Setup.{init, init_empty, init_sems}
use cse344_assignments.Canteen.Counter.{
  Rooms, init_rooms, idle, placing, collecting, away, counted, told, queued, admitted, taking,
  served, walking, sitting, Counter, newcomer, open_counter, eat, Reach, start, later, choose_food,
  wait_empty, place_food, post_full, collect, arrive, tell, stand_in_line, await_student, look,
  call, admit, enter, take_food, leave_counter, walk, find_table,
}
use cse344_assignments.Canteen.Counter.Foods.{student_finds_food}
use cse344_assignments.Canteen.Counter.Places.{cook_finds_place}
use cse344_assignments.Canteen.Counter.Tables.{student_finds_table}

abbrev rooms : Rooms
rooms = record {
  kitchen = record {
    room = 3 ∷ 3 ∷ [];
    room_mutex = 1;
    peek_mutex = 1;
    empty = 2 ∷ 2 ∷ 2 ∷ [];
    full = 0 ∷ 0 ∷ 0 ∷ [];
    peek = 3;
  };
  counter = record {
    room = 3 ∷ 3 ∷ 3 ∷ [];
    room_mutex = 1;
    peek_mutex = 1;
    empty = 1 ∷ 1 ∷ 1 ∷ [];
    full = 0 ∷ 0 ∷ 0 ∷ [];
    peek = 3;
  };
  table = record {
    room = 3 ∷ [];
    room_mutex = 1;
    peek_mutex = 1;
    empty = 1 ∷ 1 ∷ 1 ∷ [];
    full = 0 ∷ 0 ∷ 0 ∷ [];
    peek = 3;
  };
  line = record {
    room = 0 ∷ [];
    room_mutex = 1;
    peek_mutex = 1;
    empty = 0 ∷ 0 ∷ 0 ∷ [];
    full = 0 ∷ 0 ∷ 0 ∷ [];
    peek = 0;
  };
}

rooms_lem : init_rooms (1 * food_kind) 2 3 1 (9 ∷ 9 ∷ 9 ∷ []) (8 ∷ 8 ∷ 8 ∷ []) ≡ ok rooms
unfolding init_rooms init init_empty init_sems
rooms_lem = refl

below_one : 0 < 1
below_one = omega arith

below_three_0 : 0 < 3
below_three_0 = omega arith

below_three_1 : 1 < 3
below_three_1 = omega arith

below_three_2 : 2 < 3
below_three_2 = omega arith

-- The first food is about to be placed.
abbrev first_food : Counter
first_food = record {
  room = 3 ∷ 3 ∷ 3 ∷ [];
  empty = 0 ∷ 1 ∷ 1 ∷ [];
  full = 0 ∷ 0 ∷ 0 ∷ [];
  room_mutex = 1;
  peek = 1;
  visitors = 0;
  graduates = 0;
  line = 0;
  gates = 0 ∷ 0 ∷ 0 ∷ [];
  tables = 3 ∷ [];
  free = 1;
  cooks = placing 0 ∷ [];
  supervisor = collecting 0;
  delivered = 0;
  students = newcomer 0 ∷ [];
}

first_food-Reach : Reach 3 1 1 1 rooms 1 (0 ∷ []) first_food
unfolding open_counter next next_from put_item get_item
first_food-Reach =
    let opened : Reach 3 1 1 1 rooms 1 (0 ∷ []) (open_counter rooms 1 (0 ∷ [])) = start in
    let r0 = later opened (choose_food 0 refl below_one) in later r0 (wait_empty 0 0 0 refl refl)

-- The student holds the mutex of the counter.
abbrev at_counter : Counter
at_counter = record {
  room = 0 ∷ 1 ∷ 2 ∷ [];
  empty = 0 ∷ 0 ∷ 0 ∷ [];
  full = 0 ∷ 0 ∷ 0 ∷ [];
  room_mutex = 0;
  peek = 3;
  visitors = 1;
  graduates = 0;
  line = 0;
  gates = 0 ∷ 0 ∷ 0 ∷ [];
  tables = 3 ∷ [];
  free = 1;
  cooks = idle ∷ [];
  supervisor = collecting 0;
  delivered = 1;
  students = (record { graduate = 0; round = 0; place = taking 0 }) ∷ [];
}

at_counter-Reach : Reach 3 1 1 1 rooms 1 (0 ∷ []) at_counter
unfolding open_counter next next_from put_item get_item
at_counter-Reach =
    let r0 =
      later first_food-Reach
        (place_food 0 0 {slot = some 0} {room = 0 ∷ 3 ∷ 3 ∷ []} refl below_one refl refl) in
    let r1 = later r0 (post_full 0 0 0 refl refl) in
    let r2 = later r1 (choose_food 0 refl below_one) in
    let r3 = later r2 (wait_empty 0 1 0 refl refl) in
    let r4 =
      later r3 (place_food 0 1 {slot = some 1} {room = 0 ∷ 1 ∷ 3 ∷ []} refl below_one refl refl) in
    let r5 = later r4 (post_full 0 1 0 refl refl) in
    let r6 = later r5 (choose_food 0 refl below_one) in
    let r7 = later r6 (wait_empty 0 2 0 refl refl) in
    let r8 =
      later r7 (place_food 0 2 {slot = some 2} {room = 0 ∷ 1 ∷ 2 ∷ []} refl below_one refl refl) in
    let r9 = later r8 (post_full 0 2 0 refl refl) in
    let r10 = later r9 (collect 0 0 refl below_three_0 below_one refl) in
    let r11 = later r10 (collect 1 0 refl below_three_1 below_one refl) in
    let r12 = later r11 (collect 2 0 refl below_three_2 below_one refl) in
    let r13 =
      later r12 (arrive 0 (record { graduate = 0; round = 0; place = away }) refl refl below_one) in
    let r14 = later r13 (tell 0 (record { graduate = 0; round = 0; place = counted }) refl refl) in
    let r15 =
      later r14 (stand_in_line 0 (record { graduate = 0; round = 0; place = told }) refl refl) in
    let r16 = later r15 (await_student refl below_one) in
    let r17 = later r16 (look refl) in
    let r18 = later r17 (call 0 0 refl refl) in
    let r19 =
      later r18 (admit 0 0 (record { graduate = 0; round = 0; place = queued }) refl refl refl) in
    later r19 (enter 0 (record { graduate = 0; round = 0; place = admitted }) refl refl below_one)

-- The student has claimed the table.
abbrev at_table : Counter
at_table = record {
  room = 3 ∷ 3 ∷ 3 ∷ [];
  empty = 1 ∷ 1 ∷ 1 ∷ [];
  full = 0 ∷ 0 ∷ 0 ∷ [];
  room_mutex = 1;
  peek = 3;
  visitors = 0;
  graduates = 0;
  line = 0;
  gates = 0 ∷ 0 ∷ 0 ∷ [];
  tables = 3 ∷ [];
  free = 0;
  cooks = idle ∷ [];
  supervisor = collecting 0;
  delivered = 1;
  students = (record { graduate = 0; round = 0; place = sitting }) ∷ [];
}

at_table-Reach : Reach 3 1 1 1 rooms 1 (0 ∷ []) at_table
unfolding next next_from put_item get_item
at_table-Reach =
    let r0 = later at_counter-Reach (
      take_food 0 0 0 0 (record { graduate = 0; round = 0; place = (taking 0) }) {item = 0}
        {room = 3 ∷ 1 ∷ 2 ∷ []} refl refl below_three_0 refl refl refl) in
    let r1 = later r0 (
      take_food 0 1 1 0 (record { graduate = 0; round = 0; place = (taking 1) }) {item = 1}
        {room = 3 ∷ 3 ∷ 2 ∷ []} refl refl below_three_1 refl refl refl) in
    let r2 = later r1 (
      take_food 0 2 2 0 (record { graduate = 0; round = 0; place = (taking 2) }) {item = 2}
        {room = 3 ∷ 3 ∷ 3 ∷ []} refl refl below_three_2 refl refl refl) in
    let r3 =
      later r2
        (leave_counter 0 (record { graduate = 0; round = 0; place = (taking 3) }) refl refl) in
    let r4 = later r3 (walk 0 (record { graduate = 0; round = 0; place = served }) refl refl) in
    later r4
      (find_table 0 (record { graduate = 0; round = 0; place = walking }) refl refl below_one)

student_finds_food_example :
    (slot : ℕ) × (next (0 ∷ 1 ∷ 2 ∷ []) 3 0 ≡ ok (some slot))
    × (get_elem? {A = ℕ} (0 ∷ 1 ∷ 2 ∷ []) slot ≡ some 0)
student_finds_food_example =
    student_finds_food 3 1 1 1 2 9 9 9 8 8 8 rooms 1 (0 ∷ []) rooms_lem at_counter-Reach 0 0
      (record { graduate = 0; round = 0; place = taking 0 }) refl refl (omega arith)

cook_finds_place_example :
    (slot : ℕ) × (next (3 ∷ 3 ∷ 3 ∷ []) 3 plate_empty ≡ ok (some slot))
    × (get_elem? {A = ℕ} (3 ∷ 3 ∷ 3 ∷ []) slot ≡ some plate_empty)
cook_finds_place_example =
    cook_finds_place 3 1 1 1 2 9 9 9 8 8 8 rooms 1 (0 ∷ []) rooms_lem first_food-Reach 0 0 refl

student_finds_table_example : eat 1 (3 ∷ []) ≡ ok (3 ∷ [])
student_finds_table_example =
    student_finds_table 3 1 1 1 2 9 9 9 8 8 8 rooms 1 (0 ∷ []) rooms_lem at_table-Reach 0
      (record { graduate = 0; round = 0; place = sitting }) refl refl

total_str_overrun_example : total_str (replicate 10 0 ++ replicate 10 1) 20 16 ≡ err out_of_bounds
total_str_overrun_example =
    total_str_overrun (replicate 10 0 ++ replicate 10 1)
      (unfold is_kind in (unfold tally in (omega arith)))
      (unfold is_kind in (unfold tally in (omega arith)))
