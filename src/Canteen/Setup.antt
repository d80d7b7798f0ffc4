-- ===== src/Canteen/Setup.antt =====
-- The semaphores that `init` of midterm-project/solution/source/program.c sets for a room, and the
-- rooms of `init_rooms`.
pub mod Shares
use cse344_assignments.Base.{
  ℕ, zero, suc, ◌+◌, ◌-◌, ◌/◌, ◌%◌, List, ◌==◌, if◌then◌else◌, Result, ok, ◌>>=◌, store, replicate,
  leb, guard, int_overflow, ◌>>◌,
}
use cse344_assignments.Libc.{int_max}
use cse344_assignments.Canteen.Room.{plate_empty, food_kind}

-- A room with the values of its semaphores and of `peek`.
pub record Ipc : Type 0 where
  pub room : List ℕ
  pub room_mutex : ℕ
  pub peek_mutex : ℕ
  pub empty : List ℕ
  pub full : List ℕ
  pub peek : ℕ

-- for (; rounds; ++i) xsem_init(&sems[i], value).
unfoldable pub init_sems : ℕ → ℕ → ℕ → List ℕ → Result (List ℕ)
init_sems zero i value sems = ok sems
init_sems (suc rounds) i value sems =
    store sems i value >>= λ sems'. init_sems rounds (i + 1) value sems'

-- The semaphores `empty`; a dividor of 0 is FALSE.
unfoldable pub init_empty : ℕ → ℕ → List ℕ → Result (List ℕ)
unfolding init_sems
init_empty sem_size dividor sems = if dividor == 0 then init_sems food_kind 0 sem_size sems else (do
  let rem = sem_size % dividor
  larger ← init_sems rem 0 (sem_size / dividor + 1) sems
  init_sems (food_kind - rem) rem (sem_size / dividor) larger)

-- `deliver` is L * M * FOOD_KIND, a product of `int`s none of which is 0, and the semaphores are there with any value.
unfoldable pub init : ℕ → ℕ → ℕ → ℕ → List ℕ → List ℕ → Result Ipc
unfolding init_empty
init deliver room_size sem_size dividor empty full = do
  guard (leb deliver int_max) int_overflow
  empty' ← init_empty sem_size dividor empty
  full' ← init_sems food_kind 0 0 full
  ok (record {
    room = replicate room_size plate_empty;
    room_mutex = 1;
    peek_mutex = 1;
    empty = empty';
    full = full';
    peek = deliver;
  })
