-- ===== src/Canteen/Counter/Places.antt =====
-- Every place that a cook has claimed at the counter is free, and so is every table between two meals.
use cse344_assignments.Base.{
  ℕ, ◌+◌, ◌<◌, ◌≡◌, refl, ap, ◌∙◌, some, List, [], ◌∷◌, length, get_elem?, length-replicate, ok,
  subst, tally, tally-set, tally-replicate, arith, All-set, All-at, All-replicate, ◌*◌, All,
}
use cse344_assignments.Canteen.Room.{next, plate_empty, food_kind}
use cse344_assignments.Canteen.Room.Counts.{plates, is_kind, next_some}
use cse344_assignments.Canteen.Kitchen.Slots.{plates-replicate}
use cse344_assignments.Canteen.Counter.{
  Rooms, init_rooms, Carrier, idle, bringing, placing, posting, home, Counter, open_counter,
  next_food, Step, Reach, start, later, choose_food, find_no_food, go_home, go_home_with,
  wait_empty, place_food, post_full, collect, await_student, look, call, close, arrive, tell,
  stand_in_line, admit, enter, take_food, leave_counter, walk, find_table, have_meal, leave_table,
  finish,
}
use cse344_assignments.Canteen.Counter.Weights.{
  claim, count, place_lem, take_lem, IsOpen, init_rooms-IsOpen, tally-member,
}

-- The food that a cook is busy with.
unfoldable pub food_of : Carrier → ℕ
food_of idle = 0
food_of (bringing food) = food
food_of (placing food) = food
food_of (posting food) = food
food_of home = 0

-- The empty slots of the counter: on a semaphore, or claimed by a cook. A cook brings one of the foods.
module _ (size : ℕ) where
  pub record HasPlaces (c : Counter) : Type 0 where
    pub sized : length c.room ≡ size
    pub places : plates plate_empty c.room ≡ tally count c.empty + tally claim c.cooks
    pub foods : All (λ x. food_of x < food_kind) c.cooks

empty_is_empty : is_kind plate_empty plate_empty ≡ 1
unfolding is_kind
empty_is_empty = refl

food_is_full : (food : ℕ) → food < food_kind → is_kind plate_empty food ≡ 0
unfolding is_kind
food_is_full food lt = ground arith

next_food_lem : (peek : ℕ) → next_food peek < food_kind
next_food_lem peek = ground arith

module _ (size table_size rounds deliver : ℕ) where
  Step-HasPlaces :
      {c c' : Counter}
      → Step size table_size rounds deliver c c'
      → HasPlaces size c
      → HasPlaces size c'
  unfolding claim food_of
  Step-HasPlaces {c} (choose_food i at free) v = record {
    sized = v.sized;
    places = omega (arith, v.places, tally-set claim c.cooks i (bringing (next_food c.peek)) at);
    foods =
        All-set (λ x. food_of x < food_kind) c.cooks i (bringing (next_food c.peek)) v.foods
          (next_food_lem c.peek);
  }
  Step-HasPlaces {c} (find_no_food i food at) v = record {
    sized = v.sized;
    places = omega (arith, v.places, tally-set claim c.cooks i idle at);
    foods = All-set (λ x. food_of x < food_kind) c.cooks i idle v.foods (omega arith);
  }
  Step-HasPlaces {c} (go_home i at) v = record {
    sized = v.sized;
    places = omega (arith, v.places, tally-set claim c.cooks i home at);
    foods = All-set (λ x. food_of x < food_kind) c.cooks i home v.foods (omega arith);
  }
  Step-HasPlaces {c} (go_home_with i food at) v = record {
    sized = v.sized;
    places = omega (arith, v.places, tally-set claim c.cooks i home at);
    foods = All-set (λ x. food_of x < food_kind) c.cooks i home v.foods (omega arith);
  }
  Step-HasPlaces {c} (wait_empty i food n at sem) v = record {
    sized = v.sized;
    places = omega (
      arith,
      v.places,
      tally-set claim c.cooks i (placing food) at,
      tally-set count c.empty food n sem,
    );
    foods =
        All-set (λ x. food_of x < food_kind) c.cooks i (placing food) v.foods
          (All-at (λ x. food_of x < food_kind) c.cooks i v.foods at);
  }
  Step-HasPlaces {c} (place_food i food {slot} {room} at free found put) v =
      let (sized, kinds) = place_lem size food c.room slot room v.sized found put in
      let lt : food < food_kind = All-at (λ x. food_of x < food_kind) c.cooks i v.foods at in
      record {
        sized = sized;
        places = omega (
          arith,
          v.places,
          kinds plate_empty,
          empty_is_empty,
          food_is_full food lt,
          tally-set claim c.cooks i (posting food) at,
        );
        foods =
            All-set (λ x. food_of x < food_kind) c.cooks i (posting food) v.foods
              (All-at (λ x. food_of x < food_kind) c.cooks i v.foods at);
      }
  Step-HasPlaces {c} (post_full i food n at sem) v = record {
    sized = v.sized;
    places = omega (arith, v.places, tally-set claim c.cooks i idle at);
    foods = All-set (λ x. food_of x < food_kind) c.cooks i idle v.foods (omega arith);
  }
  Step-HasPlaces {c} (collect i n here hi more sem) v = record {
    sized = v.sized;
    places = v.places;
    foods = v.foods;
  }
  Step-HasPlaces {c} (await_student here more) v = record {
    sized = v.sized;
    places = v.places;
    foods = v.foods;
  }
  Step-HasPlaces {c} (look here) v = record { sized = v.sized; places = v.places; foods = v.foods }
  Step-HasPlaces {c} (call g n here sem) v = record {
    sized = v.sized;
    places = v.places;
    foods = v.foods;
  }
  Step-HasPlaces {c} (close here done) v = record {
    sized = v.sized;
    places = v.places;
    foods = v.foods;
  }
  Step-HasPlaces {c} (arrive i s at here more) v = record {
    sized = v.sized;
    places = v.places;
    foods = v.foods;
  }
  Step-HasPlaces {c} (tell i s at here) v = record {
    sized = v.sized;
    places = v.places;
    foods = v.foods;
  }
  Step-HasPlaces {c} (stand_in_line i s at here) v = record {
    sized = v.sized;
    places = v.places;
    foods = v.foods;
  }
  Step-HasPlaces {c} (enter i s at here free) v = record {
    sized = v.sized;
    places = v.places;
    foods = v.foods;
  }
  Step-HasPlaces {c} (leave_counter i s at here) v = record {
    sized = v.sized;
    places = v.places;
    foods = v.foods;
  }
  Step-HasPlaces {c} (walk i s at here) v = record {
    sized = v.sized;
    places = v.places;
    foods = v.foods;
  }
  Step-HasPlaces {c} (find_table i s at here free) v = record {
    sized = v.sized;
    places = v.places;
    foods = v.foods;
  }
  Step-HasPlaces {c} (have_meal i s at here eaten) v = record {
    sized = v.sized;
    places = v.places;
    foods = v.foods;
  }
  Step-HasPlaces {c} (finish i s at here done) v = record {
    sized = v.sized;
    places = v.places;
    foods = v.foods;
  }
  Step-HasPlaces {c} (leave_table i s at here) v = record {
    sized = v.sized;
    places = v.places;
    foods = v.foods;
  }
  Step-HasPlaces {c} (admit i n s at here sem) v = record {
    sized = v.sized;
    places = v.places;
    foods = v.foods;
  }
  Step-HasPlaces {c} (take_food i q slot n s {item} {room} at here hq found got sem) v =
      let (sized, kinds) = take_lem size q c.room slot item room v.sized found got in
      record {
        sized = sized;
        places = omega (
          arith,
          v.places,
          kinds plate_empty,
          empty_is_empty,
          food_is_full q hq,
          tally-set count c.empty q (n + 1) sem,
        );
        foods = v.foods;
      }

  start-HasPlaces :
      (r : Rooms) (cooks : ℕ) (flags : List ℕ)
      → IsOpen r size table_size
      → HasPlaces size (open_counter r cooks flags)
  unfolding open_counter food_of
  start-HasPlaces r cooks flags v = record {
    sized = ap length v.counter_room ∙ length-replicate size plate_empty;
    places =
        ap (plates plate_empty) v.counter_room
        ∙ omega (
          arith,
          plates-replicate size,
          v.counter_empty,
          tally-replicate {a = idle} claim cooks (unfold claim in refl),
        );
    foods = All-replicate (λ x. food_of x < food_kind) cooks idle (omega arith);
  }

  Reach-HasPlaces :
      (r : Rooms) (cooks : ℕ) (flags : List ℕ) {c : Counter}
      → IsOpen r size table_size
      → Reach size table_size rounds deliver r cooks flags c
      → HasPlaces size c
  Reach-HasPlaces r cooks flags o start = start-HasPlaces r cooks flags o
  Reach-HasPlaces r cooks flags o (later before step) =
      Step-HasPlaces step (Reach-HasPlaces r cooks flags o before)

module _ (size table_size rounds deliver kitchen_size x y z u v w : ℕ) (r : Rooms) (cooks : ℕ)
    (flags : List ℕ) where
  -- In every reachable state of the counter after init_rooms, a cook that has claimed a place
  -- finds an empty slot, so that put_item is never called with the slot -1.
  pub cook_finds_place :
      init_rooms
          (deliver * food_kind)
          kitchen_size
          size
          table_size
          (x ∷ y ∷ z ∷ [])
          (u ∷ v ∷ w ∷ [])
        ≡ ok r
      → {c : Counter} → Reach size table_size rounds deliver r cooks flags c
      → (i food : ℕ) → get_elem? c.cooks i ≡ some (placing food)
      → (slot : ℕ) × (next c.room size plate_empty ≡ ok (some slot))
        × (get_elem? c.room slot ≡ some plate_empty)
  cook_finds_place opened {c} reached i food at =
      let o =
        init_rooms-IsOpen (deliver * food_kind) kitchen_size size table_size x y z u v w r opened in
      let inv = Reach-HasPlaces size table_size rounds deliver r cooks flags o reached in
      let one : claim (placing food) ≡ 1 = unfold claim in refl in
      let (slot, e, is) =
        next_some c.room plate_empty
          (omega (arith, inv.places, one, tally-member claim c.cooks i at)) in
      (slot, subst (λ n. next c.room n plate_empty ≡ ok (some slot)) inv.sized e, is)
