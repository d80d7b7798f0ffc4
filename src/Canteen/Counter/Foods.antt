-- ===== src/Canteen/Counter/Foods.antt =====
-- Every food that is promised to a student is on the counter.
use cse344_assignments.Base.{
  ℕ, ◌+◌, ◌<◌, ◌≡◌, refl, ap, ◌∙◌, some, List, [], ◌∷◌, length, get_elem?, get_or, length-replicate,
  ok, subst, tally, tally-set, tally-replicate, arith, get_or-zeros, ◌*◌,
}
use cse344_assignments.Canteen.Room.{next, plate_empty, food_kind}
use cse344_assignments.Canteen.Room.Counts.{plates, is_kind, next_some}
use cse344_assignments.Canteen.Counter.{
  Rooms, init_rooms, idle, bringing, placing, posting, home, collecting, away, counted, told,
  queued, admitted, taking, served, walking, sitting, standing, gone, Student, Counter,
  open_counter, next_food, Step, Reach, start, later, choose_food, find_no_food, go_home,
  go_home_with, wait_empty, place_food, post_full, collect, await_student, look, call, close,
  arrive, tell, stand_in_line, admit, enter, take_food, leave_counter, walk, find_table, have_meal,
  leave_table, finish,
}
use cse344_assignments.Canteen.Counter.Weights.{
  posted, taken, need_at, need, count, moved, after_food_lem, post_lem, wait_lem, place_lem,
  take_lem, IsOpen, init_rooms-IsOpen, newcomers_lem, tally-member,
}

-- The foods of one kind on the counter: posted or not, with the supervisor, behind a gate or a student's.
module _ (size p : ℕ) where
  pub record IsCounter (c : Counter) : Type 0 where
    pub sized : length c.room ≡ size
    pub foods :
        plates p c.room
        ≡ get_or c.full p 0
          + tally (posted p) c.cooks
          + taken p c.supervisor
          + tally count c.gates
          + tally (need p) c.students

no_food : (p : ℕ) → p < food_kind → is_kind p plate_empty ≡ 0
unfolding is_kind
no_food p lt = ground arith

need_taking : (p q : ℕ) → need_at p (taking q) ≡ need_at p (taking (q + 1)) + is_kind p q
unfolding need_at is_kind
need_taking p q = ground arith

need-served : (p : ℕ) → p < food_kind → need_at p (taking food_kind) ≡ 0
unfolding need_at
need-served p lt = ground arith

need-first : (p : ℕ) → need_at p (taking 0) ≡ 1
unfolding need_at
need-first p = ground arith

taken-first : (p : ℕ) → taken p (collecting 0) ≡ 0
unfolding taken
taken-first p = ground arith

module _ (size table_size rounds deliver p : ℕ) (lt : p < food_kind) where
  Step-IsCounter :
      {c c' : Counter}
      → Step size table_size rounds deliver c c'
      → IsCounter size p c
      → IsCounter size p c'
  unfolding posted taken need_at
  Step-IsCounter {c} (choose_food i at free) v = record {
    sized = v.sized;
    foods = omega (arith, v.foods, tally-set (posted p) c.cooks i (bringing (next_food c.peek)) at);
  }
  Step-IsCounter {c} (find_no_food i food at) v = record {
    sized = v.sized;
    foods = omega (arith, v.foods, tally-set (posted p) c.cooks i idle at);
  }
  Step-IsCounter {c} (go_home i at) v = record {
    sized = v.sized;
    foods = omega (arith, v.foods, tally-set (posted p) c.cooks i home at);
  }
  Step-IsCounter {c} (go_home_with i food at) v = record {
    sized = v.sized;
    foods = omega (arith, v.foods, tally-set (posted p) c.cooks i home at);
  }
  Step-IsCounter {c} (wait_empty i food n at sem) v = record {
    sized = v.sized;
    foods = omega (arith, v.foods, tally-set (posted p) c.cooks i (placing food) at);
  }
  Step-IsCounter {c} (place_food i food {slot} {room} at free found put) v =
      let (sized, kinds) = place_lem size food c.room slot room v.sized found put in
      record {
        sized = sized;
        foods = omega (
          arith,
          v.foods,
          kinds p,
          no_food p lt,
          tally-set (posted p) c.cooks i (posting food) at,
        );
      }
  Step-IsCounter {c} (post_full i food n at sem) v = record {
    sized = v.sized;
    foods =
        omega
          (arith, v.foods, post_lem c.full food p n sem, tally-set (posted p) c.cooks i idle at);
  }
  Step-IsCounter {c} (collect i n here hi more sem) v = record {
    sized = v.sized;
    foods =
        omega
          (arith, v.foods, wait_lem c.full i p n sem, after_food_lem p i lt hi, ap (taken p) here);
  }
  Step-IsCounter {c} (await_student here more) v = record {
    sized = v.sized;
    foods = omega (arith, v.foods, ap (taken p) here, taken-first p);
  }
  Step-IsCounter {c} (look here) v = record {
    sized = v.sized;
    foods = omega (arith, v.foods, ap (taken p) here, taken-first p);
  }
  Step-IsCounter {c} (call g n here sem) v = record {
    sized = v.sized;
    foods =
        omega
          (arith, v.foods, ap (taken p) here, taken-first p, tally-set count c.gates g (n + 1) sem);
  }
  Step-IsCounter {c} (close here done) v = record {
    sized = v.sized;
    foods = omega (arith, v.foods, ap (taken p) here, taken-first p);
  }
  Step-IsCounter {c} (arrive i s at here more) v = record {
    sized = v.sized;
    foods =
        omega (arith, v.foods, moved p c.students i s (record s { place = counted }) away at here);
  }
  Step-IsCounter {c} (tell i s at here) v = record {
    sized = v.sized;
    foods =
        omega (arith, v.foods, moved p c.students i s (record s { place = told }) counted at here);
  }
  Step-IsCounter {c} (stand_in_line i s at here) v = record {
    sized = v.sized;
    foods =
        omega (arith, v.foods, moved p c.students i s (record s { place = queued }) told at here);
  }
  Step-IsCounter {c} (enter i s at here free) v = record {
    sized = v.sized;
    foods = omega (
      arith,
      v.foods,
      need-first p,
      moved p c.students i s (record s { place = taking 0 }) admitted at here,
    );
  }
  Step-IsCounter {c} (leave_counter i s at here) v = record {
    sized = v.sized;
    foods = omega (
      arith,
      v.foods,
      need-served p lt,
      moved p c.students i s (record s { place = served }) (taking food_kind) at here,
    );
  }
  Step-IsCounter {c} (walk i s at here) v = record {
    sized = v.sized;
    foods =
        omega
          (arith, v.foods, moved p c.students i s (record s { place = walking }) served at here);
  }
  Step-IsCounter {c} (find_table i s at here free) v = record {
    sized = v.sized;
    foods =
        omega
          (arith, v.foods, moved p c.students i s (record s { place = sitting }) walking at here);
  }
  Step-IsCounter {c} (have_meal i s at here eaten) v = record {
    sized = v.sized;
    foods =
        omega
          (arith, v.foods, moved p c.students i s (record s { place = standing }) sitting at here);
  }
  Step-IsCounter {c} (finish i s at here done) v = record {
    sized = v.sized;
    foods = omega (arith, v.foods, moved p c.students i s (record s { place = gone }) away at here);
  }
  Step-IsCounter {c} (leave_table i s at here) v = record {
    sized = v.sized;
    foods = omega (
      arith,
      v.foods,
      moved p c.students i s (record s { round = s.round + 1; place = away }) standing at here,
    );
  }
  Step-IsCounter {c} (admit i n s at here sem) v = record {
    sized = v.sized;
    foods = omega (
      arith,
      v.foods,
      tally-set count c.gates s.graduate n sem,
      moved p c.students i s (record s { place = admitted }) queued at here,
    );
  }
  Step-IsCounter {c} (take_food i q slot n s {item} {room} at here hq found got sem) v =
      let (sized, kinds) = take_lem size q c.room slot item room v.sized found got in
      record {
        sized = sized;
        foods = omega (
          arith,
          v.foods,
          kinds p,
          no_food p lt,
          need_taking p q,
          moved p c.students i s (record s { place = taking (q + 1) }) (taking q) at here,
        );
      }

  start-IsCounter :
      (r : Rooms) (cooks : ℕ) (flags : List ℕ)
      → IsOpen r size table_size
      → IsCounter size p (open_counter r cooks flags)
  unfolding open_counter
  start-IsCounter r cooks flags v = record {
    sized = ap length v.counter_room ∙ length-replicate size plate_empty;
    foods =
        ap (plates p) v.counter_room
        ∙ tally-replicate (is_kind p) size (no_food p lt)
        ∙ omega (
          arith,
          ap (λ full. get_or full p 0) v.counter_full,
          get_or-zeros 3 p,
          tally-replicate {a = idle} (posted p) cooks (unfold posted in refl),
          taken-first p,
          ap (tally count) v.line_full,
          zeros,
          newcomers_lem p flags,
        );
  }
    where
      zeros : tally count (0 ∷ 0 ∷ 0 ∷ []) ≡ 0
      zeros = unfold tally in refl

  Reach-IsCounter :
      (r : Rooms) (cooks : ℕ) (flags : List ℕ) {c : Counter}
      → IsOpen r size table_size
      → Reach size table_size rounds deliver r cooks flags c
      → IsCounter size p c
  Reach-IsCounter r cooks flags o start = start-IsCounter r cooks flags o
  Reach-IsCounter r cooks flags o (later before step) =
      Step-IsCounter step (Reach-IsCounter r cooks flags o before)

module _ (size table_size rounds deliver kitchen_size x y z u v w : ℕ) (r : Rooms) (cooks : ℕ)
    (flags : List ℕ) where
  -- In every reachable state of the counter after init_rooms, with any number of cooks and
  -- students, a student that holds the mutex of the counter and is to take a food finds a slot
  -- with that food: the assertion of student never fails.
  pub student_finds_food :
      init_rooms
          (deliver * food_kind)
          kitchen_size
          size
          table_size
          (x ∷ y ∷ z ∷ [])
          (u ∷ v ∷ w ∷ [])
        ≡ ok r
      → {c : Counter} → Reach size table_size rounds deliver r cooks flags c
      → (i p : ℕ) (s : Student) → get_elem? c.students i ≡ some s
      → s.place ≡ taking p
      → p < food_kind
      → (slot : ℕ) × (next c.room size p ≡ ok (some slot)) × (get_elem? c.room slot ≡ some p)
  student_finds_food opened {c} reached i p s at here lt =
      let o =
        init_rooms-IsOpen (deliver * food_kind) kitchen_size size table_size x y z u v w r opened in
      let inv = Reach-IsCounter size table_size rounds deliver p lt r cooks flags o reached in
      let one : need p s ≡ 1 = ap (need_at p) here ∙ needs_itself p in
      let (slot, e, is) =
        next_some c.room p (omega (arith, inv.foods, one, tally-member (need p) c.students i at)) in
      (slot, subst (λ n. next c.room n p ≡ ok (some slot)) inv.sized e, is)
    where
      needs_itself : (p : ℕ) → need_at p (taking p) ≡ 1
      needs_itself p = unfold need_at in (ground arith)
