-- ===== src/Canteen/Counter/Weights.antt =====
-- What each process at the counter accounts for, and how its moves change the sums.
use cse344_assignments.Base.{
  ℕ, zero, suc, ◌+◌, ◌-◌, ◌<◌, ◌≤◌, ◌≡◌, refl, sym, ap, ◌∙◌, Option, none, some, List, [], ◌∷◌,
  length, get_elem?, get_or, set, ◌==◌, ltb, if◌then◌else◌, ok, replicate, map, ok-injective, subst,
  tally, tally-set, arith, true, false, inl, inr, leb, Bool-cases,
}
use cse344_assignments.Canteen.Room.{next, put_item, get_item, plate_empty, food_kind}
use cse344_assignments.Canteen.Room.Counts.{
  plates, is_kind, next-eq-some, put_item_lem, get_item_lem,
}
use cse344_assignments.Libc.{int_max}
use cse344_assignments.Canteen.Setup.{Ipc, init}
use cse344_assignments.Canteen.Setup.Shares.{init_shares}
use cse344_assignments.Canteen.Counter.{
  Rooms, init_rooms, newcomer, Carrier, idle, bringing, placing, posting, home, Supervisor,
  collecting, expecting, looking, calling, over, after_food, Place, away, counted, told, queued,
  admitted, taking, served, walking, sitting, standing, gone, Student,
}

-- A food on the counter that its cook has not posted.
unfoldable pub posted : ℕ → Carrier → ℕ
unfolding is_kind
posted p idle = 0
posted p (bringing food) = 0
posted p (placing food) = 0
posted p (posting food) = is_kind p food
posted p home = 0

-- A place that a cook has claimed.
unfoldable pub claim : Carrier → ℕ
claim idle = 0
claim (bringing food) = 0
claim (placing food) = 1
claim (posting food) = 0
claim home = 0

-- A food that the supervisor has for the next student.
unfoldable pub taken : ℕ → Supervisor → ℕ
taken p (collecting i) = if ltb p i then 1 else 0
taken p expecting = 1
taken p looking = 1
taken p (calling g) = 1
taken p over = 0

-- A food that is there for a student.
unfoldable pub need_at : ℕ → Place → ℕ
need_at p away = 0
need_at p counted = 0
need_at p told = 0
need_at p queued = 0
need_at p admitted = 1
need_at p (taking q) = if ltb p q then 0 else 1
need_at p served = 0
need_at p walking = 0
need_at p sitting = 0
need_at p standing = 0
need_at p gone = 0

abbrev pub need : ℕ → Student → ℕ
need p s = need_at p s.place

abbrev pub count : ℕ → ℕ
count n = n

-- A student's move.
pub moved :
    (p : ℕ) (ss : List Student) (i : ℕ) (s : Student) (t : Student) (from : Place)
    → get_elem? ss i ≡ some s
    → s.place ≡ from
    → tally (need p) (set ss i t) + need_at p from ≡ tally (need p) ss + need_at p t.place
moved p ss i s t from at here =
    subst
      (λ from. tally (need p) (set ss i t) + need_at p from ≡ tally (need p) ss + need_at p t.place)
      here (tally-set (need p) ss i t at)

pub after_food_lem :
    (p i : ℕ)
    → p < food_kind
    → i < food_kind
    → taken p (after_food i) ≡ taken p (collecting i) + is_kind p i
unfolding taken is_kind
after_food_lem p i hp hi = ground arith

-- A write to a semaphore, in the sum.
pub get_or-set_at :
    (xs : List ℕ) (i p n v : ℕ)
    → get_elem? xs i ≡ some n
    → get_or (set xs i v) p 0 + (if i == p then n else 0)
      ≡ get_or xs p 0 + (if i == p then v else 0)
get_or-set_at [] i p n v at = absurd (ground arith)
get_or-set_at (x ∷ xs) zero zero n v at = ground arith
get_or-set_at (x ∷ xs) zero (suc p) n v at = ground arith
get_or-set_at (x ∷ xs) (suc i) zero n v at = ground arith
get_or-set_at (x ∷ xs) (suc i) (suc p) n v at = ground (arith, get_or-set_at xs i p n v at)

pub post_lem :
    (xs : List ℕ) (i p n : ℕ)
    → get_elem? xs i ≡ some n
    → get_or (set xs i (n + 1)) p 0 ≡ get_or xs p 0 + is_kind p i
unfolding is_kind
post_lem xs i p n at = ground (arith, get_or-set_at xs i p n (n + 1) at)

pub wait_lem :
    (xs : List ℕ) (i p n : ℕ)
    → get_elem? xs i ≡ some (n + 1)
    → get_or (set xs i n) p 0 + is_kind p i ≡ get_or xs p 0
unfolding is_kind
wait_lem xs i p n at = ground (arith, get_or-set_at xs i p (n + 1) n at)

-- A student who has claimed a table.
unfoldable pub seat_at : Place → ℕ
seat_at away = 0
seat_at counted = 0
seat_at told = 0
seat_at queued = 0
seat_at admitted = 0
seat_at (taking q) = 0
seat_at served = 0
seat_at walking = 0
seat_at sitting = 1
seat_at standing = 1
seat_at gone = 0

abbrev pub seat : Student → ℕ
seat s = seat_at s.place

pub moved_seat :
    (ss : List Student) (i : ℕ) (s : Student) (t : Student) (from : Place)
    → get_elem? ss i ≡ some s
    → s.place ≡ from
    → tally seat (set ss i t) + seat_at from ≡ tally seat ss + seat_at t.place
moved_seat ss i s t from at here =
    subst (λ from. tally seat (set ss i t) + seat_at from ≡ tally seat ss + seat_at t.place) here
      (tally-set seat ss i t at)

-- The rooms that `init_rooms` leaves, as far as the counter uses them.
pub record IsOpen (r : Rooms) (s t : ℕ) : Type 0 where
  pub counter_room : r.counter.room ≡ replicate s plate_empty
  pub counter_full : r.counter.full ≡ 0 ∷ 0 ∷ 0 ∷ []
  pub counter_empty : tally count r.counter.empty ≡ s
  pub line_full : r.line.full ≡ 0 ∷ 0 ∷ 0 ∷ []
  pub table_room : r.table.room ≡ replicate t plate_empty
  pub table_free : get_or r.table.empty 0 0 ≡ t

module _ (deliver k s t a b c d e f : ℕ) where
  opened_rooms :
      leb deliver int_max ≡ true
      → (r : Rooms) × (init_rooms deliver k s t (a ∷ b ∷ c ∷ []) (d ∷ e ∷ f ∷ []) ≡ ok r)
        × IsOpen r s t
  unfolding init_rooms tally
  opened_rooms small =
      let (x, y, z, shares, sum, le, le', le'') = init_shares deliver s a b c d e f small in
      (
        record {
          kitchen = closed k deliver k;
          counter = record {
            room = replicate s plate_empty;
            room_mutex = 1;
            peek_mutex = 1;
            empty = x ∷ y ∷ z ∷ [];
            full = 0 ∷ 0 ∷ 0 ∷ [];
            peek = deliver;
          };
          table = closed t deliver t;
          line = record (closed 1 (deliver - deliver) 0) { room = 0 ∷ [] };
        },
        rw (shares, small) refl,
        record {
          counter_room = refl;
          counter_full = refl;
          counter_empty = omega (arith, sum);
          line_full = refl;
          table_room = refl;
          table_free = refl;
        },
      )
    where
      closed : ℕ → ℕ → ℕ → Ipc
      closed size peek sem_size = record {
        room = replicate size plate_empty;
        room_mutex = 1;
        peek_mutex = 1;
        empty = sem_size ∷ sem_size ∷ sem_size ∷ [];
        full = 0 ∷ 0 ∷ 0 ∷ [];
        peek = peek;
      }

  -- More plates than an `int` counts.
  init_rooms_large :
      (r : Rooms)
      → leb deliver int_max ≡ false
      → ¬ (init_rooms deliver k s t (a ∷ b ∷ c ∷ []) (d ∷ e ∷ f ∷ []) ≡ ok r)
  unfolding init_rooms init
  init_rooms_large r large is = let failed = (rw large at is) in cc

  pub init_rooms-IsOpen :
      (r : Rooms) → init_rooms deliver k s t (a ∷ b ∷ c ∷ []) (d ∷ e ∷ f ∷ []) ≡ ok r → IsOpen r s t
  init_rooms-IsOpen r is = elim (Bool-cases (leb deliver int_max)) [
    | inl small ↦
        let (r', same, v) = opened_rooms small in
        subst (λ r. IsOpen r s t) (ok-injective (sym same ∙ is)) v
    | inr large ↦ absurd (init_rooms_large r large is)
  ]

-- No process counts at the beginning.
pub newcomers_lem : (p : ℕ) (flags : List ℕ) → tally (need p) (map newcomer flags) ≡ 0
unfolding tally need_at
newcomers_lem p [] = refl
newcomers_lem p (g ∷ flags) = omega (arith, newcomers_lem p flags)

pub newcomers_seat : (flags : List ℕ) → tally seat (map newcomer flags) ≡ 0
unfolding tally seat_at
newcomers_seat [] = refl
newcomers_seat (g ∷ flags) = omega (arith, newcomers_seat flags)

-- A process that counts is counted.
pub tally-member {ℓ} :
    {A : Type ℓ} (w : A → ℕ) (xs : List A) (i : ℕ) {x : A}
    → get_elem? xs i ≡ some x
    → w x ≤ tally w xs
unfolding tally
tally-member w [] i at = absurd (ground arith)
tally-member w (y ∷ xs) zero {x} at =
    let same : y ≡ x = ground arith in subst (λ x. w x ≤ w y + tally w xs) same (omega arith)
tally-member w (y ∷ xs) (suc i) at = omega (arith, tally-member w xs i at)

-- What a cook does under the mutex.
pub place_lem :
    (size food : ℕ) (room : List ℕ) (slot : Option ℕ) (room' : List ℕ)
    → length room ≡ size
    → next room size plate_empty ≡ ok slot
    → put_item room slot food ≡ ok room'
    → (length room' ≡ size)
      × ((item : ℕ)
          → plates item room' + is_kind item plate_empty ≡ plates item room + is_kind item food)
unfolding put_item
place_lem size food room none room' sized found put = cc
place_lem size food room (some slot) room' sized found put =
    let at = next-eq-some room plate_empty slot size sized found in
    let (r, e, len, kinds) = put_item_lem room slot at food in
    let same : r ≡ room' = ok-injective (sym e ∙ put) in
    subst
      (λ r.
        (length r ≡ size)
        × ((item : ℕ)
            → plates item r + is_kind item plate_empty ≡ plates item room + is_kind item food))
      same (len ∙ sized, kinds)

-- What a student does under the mutex, for one food.
pub take_lem :
    (size food : ℕ) (room : List ℕ) (slot item : ℕ) (room' : List ℕ)
    → length room ≡ size
    → next room size food ≡ ok (some slot)
    → get_item room (some slot) ≡ ok (item, room')
    → (length room' ≡ size)
      × ((kind : ℕ)
          → plates kind room' + is_kind kind food ≡ plates kind room + is_kind kind plate_empty)
take_lem size food room slot item room' sized found got =
    let at = next-eq-some room food slot size sized found in
    let (r, e, len, kinds) = get_item_lem room slot at in
    let same : r ≡ room' = ap (λ (x : ℕ × List ℕ). x.1) (ok-injective (sym e ∙ got)) in
    subst
      (λ r.
        (length r ≡ size)
        × ((kind : ℕ)
            → plates kind r + is_kind kind food ≡ plates kind room + is_kind kind plate_empty))
      same (len ∙ sized, kinds)
