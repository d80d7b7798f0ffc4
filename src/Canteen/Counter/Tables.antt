-- ===== src/Canteen/Counter/Tables.antt =====
-- Every student who has claimed a table finds an empty one, and leaves it so.
use cse344_assignments.Base.{
  ℕ, zero, suc, ◌+◌, ◌<◌, ◌≡◌, refl, sym, ap, ◌∙◌, some, List, [], ◌∷◌, get_elem?, replicate, ok,
  ok-injective, tally, arith, ◌*◌,
}
use cse344_assignments.Canteen.Room.{next, next_from, put_item, plate_empty, food_kind}
use cse344_assignments.Canteen.Counter.{
  Rooms, init_rooms, away, counted, told, queued, admitted, taking, served, walking, sitting,
  standing, gone, Student, Counter, open_counter, eat, Step, Reach, start, later, choose_food,
  find_no_food, go_home, go_home_with, wait_empty, place_food, post_full, collect, await_student,
  look, call, close, arrive, tell, stand_in_line, admit, enter, take_food, leave_counter, walk,
  find_table, have_meal, leave_table, finish,
}
use cse344_assignments.Canteen.Counter.Weights.{
  IsOpen, init_rooms-IsOpen, tally-member, seat, seat_at, moved_seat, newcomers_seat,
}

-- The tables between two meals are empty, and each is on the semaphore or claimed by a student.
module _ (table_size : ℕ) where
  pub record HasTables (c : Counter) : Type 0 where
    pub cleared : c.tables ≡ replicate table_size plate_empty
    pub seats : c.free + tally seat c.students ≡ table_size

eat_lem : (n : ℕ) → 0 < n → eat n (replicate n plate_empty) ≡ ok (replicate n plate_empty)
unfolding eat next next_from put_item
eat_lem zero lt = absurd (omega arith)
eat_lem (suc n) lt = refl

module _ (size table_size rounds deliver : ℕ) where
  Step-HasTables :
      {c c' : Counter}
      → Step size table_size rounds deliver c c'
      → HasTables table_size c
      → HasTables table_size c'
  unfolding seat_at
  Step-HasTables {c} (choose_food i at free) v = record { cleared = v.cleared; seats = v.seats }
  Step-HasTables {c} (find_no_food i food at) v = record { cleared = v.cleared; seats = v.seats }
  Step-HasTables {c} (go_home i at) v = record { cleared = v.cleared; seats = v.seats }
  Step-HasTables {c} (go_home_with i food at) v = record { cleared = v.cleared; seats = v.seats }
  Step-HasTables {c} (wait_empty i food n at sem) v = record {
    cleared = v.cleared;
    seats = v.seats;
  }
  Step-HasTables {c} (place_food i food {slot} {room} at free found put) v = record {
    cleared = v.cleared;
    seats = v.seats;
  }
  Step-HasTables {c} (post_full i food n at sem) v = record { cleared = v.cleared; seats = v.seats }
  Step-HasTables {c} (collect i n here hi more sem) v = record {
    cleared = v.cleared;
    seats = v.seats;
  }
  Step-HasTables {c} (await_student here more) v = record { cleared = v.cleared; seats = v.seats }
  Step-HasTables {c} (look here) v = record { cleared = v.cleared; seats = v.seats }
  Step-HasTables {c} (call g n here sem) v = record { cleared = v.cleared; seats = v.seats }
  Step-HasTables {c} (close here done) v = record { cleared = v.cleared; seats = v.seats }
  Step-HasTables {c} (arrive i s at here more) v = record {
    cleared = v.cleared;
    seats =
        omega
          (arith, v.seats, moved_seat c.students i s (record s { place = counted }) (away) at here);
  }
  Step-HasTables {c} (tell i s at here) v = record {
    cleared = v.cleared;
    seats =
        omega
          (arith, v.seats, moved_seat c.students i s (record s { place = told }) (counted) at here);
  }
  Step-HasTables {c} (stand_in_line i s at here) v = record {
    cleared = v.cleared;
    seats =
        omega
          (arith, v.seats, moved_seat c.students i s (record s { place = queued }) (told) at here);
  }
  Step-HasTables {c} (enter i s at here free) v = record {
    cleared = v.cleared;
    seats = omega (
      arith,
      v.seats,
      moved_seat c.students i s (record s { place = taking 0 }) (admitted) at here,
    );
  }
  Step-HasTables {c} (leave_counter i s at here) v = record {
    cleared = v.cleared;
    seats = omega (
      arith,
      v.seats,
      moved_seat c.students i s (record s { place = served }) (taking food_kind) at here,
    );
  }
  Step-HasTables {c} (walk i s at here) v = record {
    cleared = v.cleared;
    seats =
        omega (
          arith,
          v.seats,
          moved_seat c.students i s (record s { place = walking }) (served) at here,
        );
  }
  Step-HasTables {c} (find_table i s at here free) v = record {
    cleared = v.cleared;
    seats = omega (
      arith,
      v.seats,
      moved_seat c.students i s (record s { place = sitting }) (walking) at here,
    );
  }
  Step-HasTables {c} (have_meal i s {tables} at here eaten) v =
      let some_tables : 0 < table_size =
        omega (arith, v.seats, tally-member seat c.students i at, ap seat_at here) in
      let kept : tables ≡ replicate table_size plate_empty =
        ok-injective (sym eaten ∙ ap (eat table_size) v.cleared ∙ eat_lem table_size some_tables) in
      record {
        cleared = kept;
        seats = omega (
          arith,
          v.seats,
          moved_seat c.students i s (record s { place = standing }) (sitting) at here,
        );
      }
  Step-HasTables {c} (finish i s at here done) v = record {
    cleared = v.cleared;
    seats =
        omega
          (arith, v.seats, moved_seat c.students i s (record s { place = gone }) (away) at here);
  }
  Step-HasTables {c} (leave_table i s at here) v = record {
    cleared = v.cleared;
    seats = omega (
      arith,
      v.seats,
      moved_seat c.students i s (record s { round = s.round + 1; place = away }) standing at here,
    );
  }
  Step-HasTables {c} (admit i n s at here sem) v = record {
    cleared = v.cleared;
    seats = omega (
      arith,
      v.seats,
      moved_seat c.students i s (record s { place = admitted }) (queued) at here,
    );
  }
  Step-HasTables {c} (take_food i q slot n s {item} {room} at here hq found got sem) v = record {
    cleared = v.cleared;
    seats = omega (
      arith,
      v.seats,
      moved_seat c.students i s (record s { place = taking (q + 1) }) (taking q) at here,
    );
  }

  start-HasTables :
      (r : Rooms) (cooks : ℕ) (flags : List ℕ)
      → IsOpen r size table_size
      → HasTables table_size (open_counter r cooks flags)
  unfolding open_counter
  start-HasTables r cooks flags v = record {
    cleared = v.table_room;
    seats = omega (arith, v.table_free, newcomers_seat flags);
  }

  Reach-HasTables :
      (r : Rooms) (cooks : ℕ) (flags : List ℕ) {c : Counter}
      → IsOpen r size table_size
      → Reach size table_size rounds deliver r cooks flags c
      → HasTables table_size c
  Reach-HasTables r cooks flags o start = start-HasTables r cooks flags o
  Reach-HasTables r cooks flags o (later before step) =
      Step-HasTables step (Reach-HasTables r cooks flags o before)

module _ (size table_size rounds deliver kitchen_size x y z u v w : ℕ) (r : Rooms) (cooks : ℕ)
    (flags : List ℕ) where
  -- In every reachable state of the counter after init_rooms, a student that has claimed a table
  -- can sit down, eat and stand up, and leaves the tables as they were.
  pub student_finds_table :
      init_rooms
          (deliver * food_kind)
          kitchen_size
          size
          table_size
          (x ∷ y ∷ z ∷ [])
          (u ∷ v ∷ w ∷ [])
        ≡ ok r
      → {c : Counter} → Reach size table_size rounds deliver r cooks flags c
      → (i : ℕ) (s : Student) → get_elem? c.students i ≡ some s
      → s.place ≡ sitting
      → eat table_size c.tables ≡ ok c.tables
  unfolding seat_at
  student_finds_table opened {c} reached i s at here =
      let o =
        init_rooms-IsOpen (deliver * food_kind) kitchen_size size table_size x y z u v w r opened in
      let inv = Reach-HasTables size table_size rounds deliver r cooks flags o reached in
      let some_tables : 0 < table_size =
        omega (arith, inv.seats, tally-member seat c.students i at, ap seat_at here) in
      ap (eat table_size) inv.cleared ∙ eat_lem table_size some_tables ∙ ap ok (sym inv.cleared)
