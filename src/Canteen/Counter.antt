-- ===== src/Canteen/Counter.antt =====
-- The counter of midterm-project/solution/source/program.c between the cooks, the supervisor and the
-- students, with the tables. Each operation on a semaphore is one step, and so is what a process does
-- between them; the room of the counter is used under `room_mutex`. What a cook does at the kitchen, and
-- whether it finds a plate there, does not touch the counter.
pub mod Weights
pub mod Foods
pub mod Places
pub mod Tables
use cse344_assignments.Base.{
  ℕ, ◌+◌, ◌-◌, ◌<◌, ◌≤◌, ◌≡◌, Option, some, List, map, ◌==◌, leb, if◌then◌else◌, get_elem?, get_or,
  set, replicate, Result, ok, ◌>>=◌,
}
use cse344_assignments.Canteen.Room.{next, put_item, get_item, plate_empty, food_kind}
use cse344_assignments.Canteen.Setup.{Ipc, init}

-- The four rooms.
pub record Rooms : Type 0 where
  pub kitchen : Ipc
  pub counter : Ipc
  pub table : Ipc
  pub line : Ipc

-- `init_rooms`, with the sizes of kitchen, counter and tables, and `deliver` for L * M * FOOD_KIND. The
-- semaphores are there with any value.
unfoldable pub init_rooms : ℕ → ℕ → ℕ → ℕ → List ℕ → List ℕ → Result Rooms
unfolding init
init_rooms deliver k s t empty full = do
  kitchen ← init deliver k k 0 empty full
  counter ← init deliver s s food_kind empty full
  table ← init deliver t t 0 empty full
  line ← init deliver 1 0 0 empty full
  ok (record {
    kitchen = kitchen;
    counter = counter;
    table = table;
    line = record line { peek = line.peek - deliver; room = set line.room 0 0 };
  })

-- Where a cook stands: before its choice of a food, on its way with one, before the mutex with a free
-- place claimed, before the post of the food, or at home.
pub data Carrier : Type 0 where
  idle : Carrier
  bringing : ℕ → Carrier
  placing : ℕ → Carrier
  posting : ℕ → Carrier
  home : Carrier

-- The supervisor: before its wait for a food, before its wait for a student, before the look at the
-- line, before the post for a kind of student, or done.
pub data Supervisor : Type 0 where
  collecting : ℕ → Supervisor
  expecting : Supervisor
  looking : Supervisor
  calling : ℕ → Supervisor
  over : Supervisor

-- A student: before each of its operations in turn; `taking p` holds the mutex of the counter.
pub data Place : Type 0 where
  away : Place
  counted : Place
  told : Place
  queued : Place
  admitted : Place
  taking : ℕ → Place
  served : Place
  walking : Place
  sitting : Place
  standing : Place
  gone : Place

pub record Student : Type 0 where
  pub graduate : ℕ
  pub round : ℕ
  pub place : Place

pub record Counter : Type 0 where
  -- COUNTER
  pub room : List ℕ
  pub empty : List ℕ
  pub full : List ℕ
  pub room_mutex : ℕ
  pub peek : ℕ
  -- SUPERVISOR: `room`, `peek`, `empty` and `full`.
  pub visitors : ℕ
  pub graduates : ℕ
  pub line : ℕ
  pub gates : List ℕ
  -- TABLE
  pub tables : List ℕ
  pub free : ℕ
  -- the processes
  pub cooks : List Carrier
  pub supervisor : Supervisor
  pub delivered : ℕ
  pub students : List Student

abbrev pub newcomer : ℕ → Student
newcomer graduate = record { graduate = graduate; round = 0; place = away }

-- The processes after `init_rooms`: a cook each of `count`, and a student for each flag.
unfoldable pub open_counter : Rooms → ℕ → List ℕ → Counter
open_counter r count flags = record {
  room = r.counter.room;
  empty = r.counter.empty;
  full = r.counter.full;
  room_mutex = r.counter.room_mutex;
  peek = r.counter.peek;
  visitors = get_or r.line.room 0 0;
  graduates = r.line.peek;
  line = get_or r.line.empty 0 0;
  gates = r.line.full;
  tables = r.table.room;
  free = get_or r.table.empty 0 0;
  cooks = replicate count idle;
  supervisor = collecting 0;
  delivered = 0;
  students = map newcomer flags;
}

-- The food that a cook chooses by the counter's `peek`.
abbrev pub next_food : ℕ → ℕ
next_food peek = if leb food_kind peek then 0 else peek

-- The supervisor after a food.
abbrev pub after_food : ℕ → Supervisor
after_food i = if i == food_kind - 1 then expecting else collecting (i + 1)

-- Whether a graduate waits on the line.
abbrev pub caller : ℕ → ℕ
caller graduates = if graduates == 0 then 0 else 1

-- A student at a table, under the mutex of the tables: TRUE is 1.
unfoldable pub eat : ℕ → List ℕ → Result (List ℕ)
unfolding next put_item
eat size tables = do
  slot ← next tables size plate_empty
  seated ← put_item tables slot 1
  put_item seated slot plate_empty

abbrev pub move : Counter → ℕ → Student → Place → Counter
move c i s place = record c { students = set c.students i (record s { place = place }) }

abbrev pub move_cook : Counter → ℕ → Carrier → Counter
move_cook c i carrier = record c { cooks = set c.cooks i carrier }

module _ (size table_size rounds deliver : ℕ) where
  pub data Step (c : Counter) : Counter → Type 0 where
    choose_food :
        (i : ℕ)
        → get_elem? c.cooks i ≡ some idle
        → 0 < c.room_mutex
        → Step c
            (record (move_cook c i (bringing (next_food c.peek))) { peek = next_food c.peek + 1 })
    -- The cook has found no such plate in the kitchen.
    find_no_food :
        (i food : ℕ) → get_elem? c.cooks i ≡ some (bringing food) → Step c (move_cook c i idle)
    -- There is nothing left to deliver, of this food or at all.
    go_home : (i : ℕ) → get_elem? c.cooks i ≡ some idle → Step c (move_cook c i home)
    go_home_with :
        (i food : ℕ) → get_elem? c.cooks i ≡ some (bringing food) → Step c (move_cook c i home)
    wait_empty :
        (i food n : ℕ)
        → get_elem? c.cooks i ≡ some (bringing food)
        → get_elem? c.empty food ≡ some (n + 1)
        → Step c (record (move_cook c i (placing food)) { empty = set c.empty food n })
    place_food :
        (i food : ℕ) {slot : Option ℕ} {room : List ℕ}
        → get_elem? c.cooks i ≡ some (placing food)
        → 0 < c.room_mutex
        → next c.room size plate_empty ≡ ok slot
        → put_item c.room slot food ≡ ok room
        → Step c (record (move_cook c i (posting food)) { room = room })
    post_full :
        (i food n : ℕ)
        → get_elem? c.cooks i ≡ some (posting food)
        → get_elem? c.full food ≡ some n
        → Step c (record (move_cook c i idle) { full = set c.full food (n + 1) })
    collect :
        (i n : ℕ)
        → c.supervisor ≡ collecting i
        → i < food_kind
        → c.delivered < deliver
        → get_elem? c.full i ≡ some (n + 1)
        → Step c (record c { full = set c.full i n; supervisor = after_food i })
    await_student :
        c.supervisor ≡ expecting
        → 0 < c.line
        → Step c (record c { line = c.line - 1; supervisor = looking })
    look :
        c.supervisor ≡ looking
        → Step c (record c {
          graduates = c.graduates - caller c.graduates;
          supervisor = calling (caller c.graduates);
        })
    call :
        (g n : ℕ)
        → c.supervisor ≡ calling g
        → get_elem? c.gates g ≡ some n
        → Step c (record c {
          gates = set c.gates g (n + 1);
          supervisor = collecting 0;
          delivered = c.delivered + 1;
        })
    close :
        c.supervisor ≡ collecting 0
        → deliver ≤ c.delivered
        → Step c (record c { supervisor = over })
    arrive :
        (i : ℕ) (s : Student)
        → get_elem? c.students i ≡ some s
        → s.place ≡ away
        → s.round < rounds
        → Step c (record (move c i s counted) { visitors = c.visitors + 1 })
    tell :
        (i : ℕ) (s : Student)
        → get_elem? c.students i ≡ some s
        → s.place ≡ counted
        → Step c (record (move c i s told) { graduates = c.graduates + s.graduate })
    stand_in_line :
        (i : ℕ) (s : Student)
        → get_elem? c.students i ≡ some s
        → s.place ≡ told
        → Step c (record (move c i s queued) { line = c.line + 1 })
    admit :
        (i n : ℕ) (s : Student)
        → get_elem? c.students i ≡ some s
        → s.place ≡ queued
        → get_elem? c.gates s.graduate ≡ some (n + 1)
        → Step c (record (move c i s admitted) { gates = set c.gates s.graduate n })
    enter :
        (i : ℕ) (s : Student)
        → get_elem? c.students i ≡ some s
        → s.place ≡ admitted
        → 0 < c.room_mutex
        → Step c (record (move c i s (taking 0)) { room_mutex = c.room_mutex - 1 })
    -- One turn of the loop over the foods, when its assertion holds.
    take_food :
        (i p slot n : ℕ) (s : Student) {item : ℕ} {room : List ℕ}
        → get_elem? c.students i ≡ some s
        → s.place ≡ taking p
        → p < food_kind
        → next c.room size p ≡ ok (some slot)
        → get_item c.room (some slot) ≡ ok (item, room)
        → get_elem? c.empty p ≡ some n
        → Step c
            (record (move c i s (taking (p + 1))) { room = room; empty = set c.empty p (n + 1) })
    leave_counter :
        (i : ℕ) (s : Student)
        → get_elem? c.students i ≡ some s
        → s.place ≡ taking food_kind
        → Step c (record (move c i s served) { room_mutex = c.room_mutex + 1 })
    walk :
        (i : ℕ) (s : Student)
        → get_elem? c.students i ≡ some s
        → s.place ≡ served
        → Step c (record (move c i s walking) { visitors = c.visitors - 1 })
    find_table :
        (i : ℕ) (s : Student)
        → get_elem? c.students i ≡ some s
        → s.place ≡ walking
        → 0 < c.free
        → Step c (record (move c i s sitting) { free = c.free - 1 })
    have_meal :
        (i : ℕ) (s : Student) {tables : List ℕ}
        → get_elem? c.students i ≡ some s
        → s.place ≡ sitting
        → eat table_size c.tables ≡ ok tables
        → Step c (record (move c i s standing) { tables = tables })
    leave_table :
        (i : ℕ) (s : Student)
        → get_elem? c.students i ≡ some s
        → s.place ≡ standing
        → Step c (record (move c i (record s { round = s.round + 1 }) away) { free = c.free + 1 })
    finish :
        (i : ℕ) (s : Student)
        → get_elem? c.students i ≡ some s
        → s.place ≡ away
        → rounds ≤ s.round
        → Step c (move c i s gone)

  pub data Reach (r : Rooms) (count : ℕ) (flags : List ℕ) : Counter → Type 0 where
    start : Reach r count flags (open_counter r count flags)
    later : {c c' : Counter} → Reach r count flags c → Step c c' → Reach r count flags c'
