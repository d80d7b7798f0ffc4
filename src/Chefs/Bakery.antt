-- ===== src/Chefs/Bakery.antt =====
-- The wholesaler and the chefs of homework-4/solution/source/program.c, with the semaphores of
-- homework-4/solution/source/utils.c that they share. What is done under `finish_mutex` or
-- `store_mutex` is one step, and so is each operation on another semaphore. The texts that they print
-- and the time of a preparation are left out.
pub mod Semaphores
pub mod Pairs
pub mod Weights
pub mod Files
pub mod Delivery
pub mod Early
pub mod Wholesale
pub mod Late
pub mod Phases
pub mod Safety
pub mod Moves
pub mod Progress
pub mod Exits
pub mod Ends
pub mod Stuck
use cse344_assignments.Base.{
  ℕ, zero, suc, ◌+◌, ◌-◌, ◌≤◌, ◌<◌, ◌≡◌, ◌≢◌, Bool, true, false, Option, none, some, List, [], ◌∷◌,
  get_elem?, set, replicate, Result, ok, err, exited, load, ◌>>=◌,
}
use cse344_assignments.Chefs.{get_mask, sem_of_ingredients, next_supply}

abbrev pub chef_number : ℕ
chef_number = 6

abbrev pub ingredient_number : ℕ
ingredient_number = 4

-- The value of `EMPTY`, the last of `enum Ingredient`.
abbrev pub empty : ℕ
empty = 17

-- `systemV_seminit`: all four semaphores at 0.
abbrev pub system_v_seminit : List ℕ
system_v_seminit = replicate ingredient_number 0

-- One operation of `semop` with 1; a number out of range makes it fail.
unfoldable pub add_one : List ℕ → ℕ → Result (List ℕ)
add_one [] i = err exited
add_one (v ∷ sems) zero = ok ((v + 1) ∷ sems)
add_one (v ∷ sems) (suc i) = add_one sems i >>= λ sems'. ok (v ∷ sems')

abbrev pub behind : ℕ → Option (List ℕ) → Option (List ℕ)
behind v none = none
behind v (some sems) = some (v ∷ sems)

-- One operation of `semop` with -1; `none` while it has to wait.
unfoldable pub take_one : List ℕ → ℕ → Result (Option (List ℕ))
take_one [] i = err exited
take_one (zero ∷ sems) zero = ok none
take_one (suc v ∷ sems) zero = ok (some (v ∷ sems))
take_one (v ∷ sems) (suc i) = take_one sems i >>= λ taken. ok (behind v taken)

-- Both operations at once.
unfoldable pub system_v_sempost : List ℕ → List ℕ → Result (List ℕ)
unfolding add_one
system_v_sempost sems index = do
  i ← load index 0
  j ← load index 1
  sems' ← add_one sems i
  add_one sems' j

-- Both operations at once, or neither: `none` while the call has to wait.
unfoldable pub system_v_semwait : List ℕ → List ℕ → Result (Option (List ℕ))
unfolding take_one
system_v_semwait sems index = do
  i ← load index 0
  j ← load index 1
  taken ← take_one sems i
  elim taken [ none ↦ ok none | some sems' ↦ take_one sems' j ]

-- Where a chef stands: at the test of its loop, in `systemV_semwait`, at the second test, before
-- `take_delivery`, before the post of `dessert`, in the loop of its exit, or gone.
pub data Chef : Type 0 where
  looping : Chef
  waiting : Chef
  woken : Chef
  taking : Chef
  preparing : Chef
  exiting : ℕ → Chef
  gone : Chef

-- Where the wholesaler stands: before `next_supply`, before `deliver`, before `systemV_sempost`, in
-- its wait for the dessert, after its loop, before the last `systemV_sempost`, or done.
pub data Wholesaler : Type 0 where
  reading : Wholesaler
  delivering : ℕ → Wholesaler
  posting : Wholesaler
  awaiting : Wholesaler
  finishing : Wholesaler
  last_posting : Wholesaler
  done : Wholesaler

-- What the threads share, what is left of the file, the `sem_index` of the wholesaler, and where the
-- threads stand.
pub record Bakery : Type 0 where
  pub sems : List ℕ
  pub finished : Bool
  pub dessert : ℕ
  pub store : ℕ
  pub fd : List ℕ
  pub sem_index : List ℕ
  pub wholesaler : Wholesaler
  pub chefs : List Chef

-- `init`, and the start of the threads. `x`, `y` and `z` are what the memory held.
unfoldable pub init : List ℕ → ℕ → ℕ → ℕ → Bakery
init fd x y z = record {
  sems = system_v_seminit;
  finished = false;
  dessert = 0;
  store = z;
  fd = fd;
  sem_index = x ∷ y ∷ [];
  wholesaler = reading;
  chefs = replicate chef_number looping;
}

-- Chef `i` gets to another place.
abbrev pub chef_to : Bakery → ℕ → Chef → Bakery
chef_to s i c = record s { chefs = set s.chefs i c }

-- The semaphores that chef `i` waits for.
abbrev pub IsIndex : ℕ → List ℕ → Type 0
IsIndex i index =
    (mask : ℕ) × (x : ℕ) × (y : ℕ) × (get_mask i ≡ ok mask)
    × (sem_of_ingredients mask (x ∷ y ∷ []) ≡ ok index)

pub data Step (s : Bakery) : Bakery → Type 0 where
  -- `wholesaler`: the next supply and its two semaphores.
  read :
      {mask : ℕ} {fd index : List ℕ}
      → s.wholesaler ≡ reading
      → next_supply s.fd ≡ ok (mask, fd)
      → mask ≢ 0
      → sem_of_ingredients mask s.sem_index ≡ ok index
      → Step s (record s { fd = fd; sem_index = index; wholesaler = delivering mask })
  read_end :
      {fd : List ℕ}
      → s.wholesaler ≡ reading
      → next_supply s.fd ≡ ok (0, fd)
      → Step s (record s { fd = fd; wholesaler = finishing })
  deliver :
      {mask : ℕ}
      → s.wholesaler ≡ delivering mask
      → Step s (record s { store = mask; wholesaler = posting })
  post :
      {sems : List ℕ}
      → s.wholesaler ≡ posting
      → system_v_sempost s.sems s.sem_index ≡ ok sems
      → Step s (record s { sems = sems; wholesaler = awaiting })
  obtain :
      s.wholesaler ≡ awaiting
      → 0 < s.dessert
      → Step s (record s { dessert = s.dessert - 1; wholesaler = reading })
  finish :
      s.wholesaler ≡ finishing → Step s (record s { finished = true; wholesaler = last_posting })
  last_post :
      {sems : List ℕ}
      → s.wholesaler ≡ last_posting
      → system_v_sempost s.sems s.sem_index ≡ ok sems
      → Step s (record s { sems = sems; wholesaler = done })
  -- `chef`: the test of the loop.
  enter :
      (i : ℕ)
      → get_elem? s.chefs i ≡ some looping
      → s.finished ≡ false
      → Step s (chef_to s i waiting)
  leave :
      (i : ℕ)
      → get_elem? s.chefs i ≡ some looping
      → s.finished ≡ true
      → Step s (chef_to s i (exiting 0))
  wake :
      (i : ℕ) {index sems : List ℕ}
      → get_elem? s.chefs i ≡ some waiting
      → IsIndex i index
      → system_v_semwait s.sems index ≡ ok (some sems)
      → Step s (record s { sems = sems; chefs = set s.chefs i woken })
  -- The second test.
  stay :
      (i : ℕ) → get_elem? s.chefs i ≡ some woken → s.finished ≡ false → Step s (chef_to s i taking)
  break :
      (i : ℕ)
      → get_elem? s.chefs i ≡ some woken
      → s.finished ≡ true
      → Step s (chef_to s i (exiting 0))
  take_delivery :
      (i : ℕ)
      → get_elem? s.chefs i ≡ some taking
      → Step s (record s { store = empty; chefs = set s.chefs i preparing })
  post_dessert :
      (i : ℕ)
      → get_elem? s.chefs i ≡ some preparing
      → Step s (record s { dessert = s.dessert + 1; chefs = set s.chefs i looping })
  -- The loop that wakes the chefs waiting in vain.
  wake_others :
      (i n : ℕ) {index sems : List ℕ}
      → get_elem? s.chefs i ≡ some (exiting n)
      → n < chef_number
      → IsIndex n index
      → system_v_sempost s.sems index ≡ ok sems
      → Step s (record s { sems = sems; chefs = set s.chefs i (exiting (n + 1)) })
  exit :
      (i n : ℕ)
      → get_elem? s.chefs i ≡ some (exiting n)
      → chef_number ≤ n
      → Step s (chef_to s i gone)

-- From a file `bytes` on.
pub data Reach (bytes : List ℕ) (x y z : ℕ) : Bakery → Type 0 where
  start : Reach bytes x y z (init bytes x y z)
  later : {s t : Bakery} → Reach bytes x y z s → Step s t → Reach bytes x y z t
