-- ===== src/Server/Queue.antt =====
-- The growing circular queue of final-project/solution/source/queue.h.
-- A pointer to a queue is the queue: a function that writes through `*q` returns the new one. The
-- items are of any type, since the server keeps descriptors, vertices and pointers to queues in
-- them. A slot of `line` is `none` until it is written, as `xmalloc` leaves it.
-- `int` is its bit pattern modulo 2^32; `front` and `back` never reach the sign bit (`Inv`).
pub mod Inv
pub mod Enqueue
pub mod Doubling
pub mod Fifo
pub mod Copy
use cse344_assignments.Base.{
  ℕ, zero, suc, ◌+◌, ◌-◌, ◌*◌, ◌%◌, ◌^◌, Bool, Option, none, some, List, ◌==◌, ltb, out_of_bounds,
  if◌then◌else◌, exited, int_overflow, division_by_zero, out_of_fuel, Result, ok, err, used, ◌>>=◌,
  load, store, replicate,
}

pub record Queue {ℓ} (A : Type ℓ) : Type ℓ where
  pub front : ℕ
  pub back : ℕ
  pub cap : ℕ
  pub size : ℕ
  pub line : List (Option A)

abbrev pub int_max : ℕ
int_max = 2 ^ 31 - 1

-- `n + 1` on an `int`: overflow is undefined. The result is read as `unsigned int`.
abbrev pub int_suc : ℕ → Result ℕ
int_suc n = if n == int_max then err int_overflow else ok ((n + 1) % 2 ^ 32)

-- `n % cap` on `unsigned int`.
abbrev pub remainder : ℕ → ℕ → Result ℕ
remainder n cap = if cap == 0 then err division_by_zero else ok (n % cap)

-- An `int` as a subscript: a negative one is out of bounds.
abbrev pub subscript : ℕ → Result ℕ
subscript n = if ltb int_max n then err out_of_bounds else ok n

module _ {ℓ} {A : Type ℓ} where
  unfoldable pub create_queue : ℕ → Queue A
  create_queue cap = record {
    front = 0;
    back = (cap + 2 ^ 32 - 1) % 2 ^ 32;
    cap = cap;
    size = 0;
    line = replicate cap none;
  }

  unfoldable pub is_full : Queue A → Bool
  is_full q = q.size == q.cap

  unfoldable pub is_empty : Queue A → Bool
  is_empty q = q.size == 0

  -- The last three lines of `enqueue`, once there is room.
  unfoldable pub append : Queue A → A → Result (Queue A)
  append q item = do
    next ← int_suc q.back
    back ← remainder next q.cap
    at ← subscript back
    line ← store q.line at (some item)
    ok (record q { back = back; line = line; size = (q.size + 1) % 2 ^ 32 })

  unfoldable pub dequeue : Queue A → Result (A × Queue A)
  unfolding is_empty
  dequeue q = if is_empty q then err exited else do
    at ← subscript q.front
    slot ← load q.line at
    item ← used slot
    next ← int_suc q.front
    front ← remainder next q.cap
    ok (item, record q { front = front; size = (q.size + 2 ^ 32 - 1) % 2 ^ 32 })

  unfoldable pub front : Queue A → Result A
  unfolding is_empty
  front q = if is_empty q then err exited else (subscript q.front >>= λ at. load q.line at >>= used)

  unfoldable pub back : Queue A → Result A
  unfolding is_empty
  back q = if is_empty q then err exited else (subscript q.back >>= λ at. load q.line at >>= used)

  unfoldable pub size : Queue A → ℕ
  size q = q.size

  -- for (i = 0; i < n; i++) dest[i] = src[i], from the index `i` on for `n` rounds.
  unfoldable pub copy_line : ℕ → ℕ → List (Option A) → List (Option A) → Result (List (Option A))
  copy_line zero i src dest = ok dest
  copy_line (suc n) i src dest = do
    slot ← load src i
    dest' ← store dest i slot
    copy_line n (i + 1) src dest'

  unfoldable pub copy : Queue A → Queue A → Result (Queue A)
  unfolding copy_line
  copy src dest = do
    line ← copy_line src.cap 0 src.line dest.line
    ok (record { front = src.front; back = src.back; cap = src.cap; size = src.size; line = line })

  -- The loop of `enlarge`, for at most `rounds` rounds; `put` is the `enqueue` that it calls.
  unfoldable pub move_all :
      (Queue A → A → Result (Queue A)) → ℕ → Queue A → Queue A → Result (Queue A)
  move_all put zero old new = if is_empty old then ok new else err out_of_fuel
  move_all put (suc rounds) old new =
      if is_empty old
      then ok new
      else do (item, old') ← dequeue old; new' ← put new item; move_all put rounds old' new'

  -- `enlarge` and `enqueue` call one another: `put` is the inner call of `enqueue`.
  unfoldable pub enlarge : (Queue A → A → Result (Queue A)) → Queue A → Result (Queue A)
  enlarge put q = move_all put q.size q (create_queue (q.cap * 2 % 2 ^ 32))

  -- `enqueue` down to `depth` calls of `enlarge` inside one another.
  unfoldable pub enqueue_within : ℕ → Queue A → A → Result (Queue A)
  enqueue_within zero q item = if is_full q then err out_of_fuel else append q item
  enqueue_within (suc depth) q item =
      let larger = enlarge (enqueue_within depth) q in
      if is_full q then (larger >>= λ q'. append q' item) else append q item

  -- A queue that was enlarged has room, but for the capacity 0, where the next call moves nothing.
  unfoldable pub enqueue : Queue A → A → Result (Queue A)
  enqueue = enqueue_within 2
