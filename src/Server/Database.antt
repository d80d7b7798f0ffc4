-- ===== src/Server/Database.antt =====
-- `read_database` and `write_database` of final-project/solution/source/server.c: many readers or one
-- writer of the cache. Each operation on a semaphore is one step. `read_count` is touched only by
-- the thread that holds `read_mutex`, so its update and the test that follows make one step with no
-- other thread in between; so does `write_count` under `write_mutex`. What a thread does between two
-- calls, and how many calls it makes, is left open: from `idle` it may begin either one.
pub mod Counts
pub mod Exclusion
pub mod Progress
use cse344_assignments.Base.{ℕ, ◌+◌, ◌-◌, ◌<◌, ◌≡◌, ◌≢◌, List, some, get_elem?, set, replicate}

-- The semaphores and counters of `struct ConnHandlerResource`.
pub record Shared : Type 0 where
  pub read_try : ℕ
  pub read_mutex : ℕ
  pub write_mutex : ℕ
  pub cache_mutex : ℕ
  pub read_count : ℕ
  pub write_count : ℕ

-- What `init_shared_resources` sets.
abbrev pub init_shared : Shared
init_shared = record {
  read_try = 1;
  read_mutex = 1;
  write_mutex = 1;
  cache_mutex = 1;
  read_count = 0;
  write_count = 0;
}

-- Where a thread stands: the call that it makes next.
pub data Pc : Type 0 where
  idle : Pc
  r_enter : Pc  -- wait(read_mutex), with read_try
  r_count : Pc  -- read_count++ and its test
  r_lock : Pc  -- wait(cache_mutex), the first reader
  r_free_mutex : Pc  -- post(read_mutex)
  r_free_try : Pc  -- post(read_try)
  reading : Pc  -- get_cache, then wait(read_mutex)
  r_uncount : Pc  -- read_count-- and its test
  r_unlock : Pc  -- post(cache_mutex), the last reader
  r_leave : Pc  -- post(read_mutex)
  w_count : Pc  -- write_count++ and its test
  w_lock : Pc  -- wait(read_try), the first writer
  w_free_mutex : Pc  -- post(write_mutex)
  w_enter : Pc  -- wait(cache_mutex)
  writing : Pc  -- to_cache, then post(cache_mutex)
  w_done : Pc  -- wait(write_mutex)
  w_uncount : Pc  -- write_count-- and its test
  w_unlock : Pc  -- post(read_try), the last writer
  w_leave : Pc  -- post(write_mutex)

-- One step of one thread. A `wait` goes on only if the semaphore is above 0.
pub data Move (m : Shared) : Pc → Shared → Pc → Type 0 where
  read_begin : 0 < m.read_try → Move m idle (record m { read_try = m.read_try - 1 }) r_enter
  read_mutex_in :
      0 < m.read_mutex → Move m r_enter (record m { read_mutex = m.read_mutex - 1 }) r_count
  count_first :
      m.read_count + 1 ≡ 1 → Move m r_count (record m { read_count = m.read_count + 1 }) r_lock
  count_more :
      m.read_count + 1 ≢ 1
      → Move m r_count (record m { read_count = m.read_count + 1 }) r_free_mutex
  lock_cache :
      0 < m.cache_mutex → Move m r_lock (record m { cache_mutex = m.cache_mutex - 1 }) r_free_mutex
  read_mutex_out : Move m r_free_mutex (record m { read_mutex = m.read_mutex + 1 }) r_free_try
  read_try_out : Move m r_free_try (record m { read_try = m.read_try + 1 }) reading
  read_end :
      0 < m.read_mutex → Move m reading (record m { read_mutex = m.read_mutex - 1 }) r_uncount
  uncount_last :
      m.read_count - 1 ≡ 0 → Move m r_uncount (record m { read_count = m.read_count - 1 }) r_unlock
  uncount_more :
      m.read_count - 1 ≢ 0 → Move m r_uncount (record m { read_count = m.read_count - 1 }) r_leave
  unlock_cache : Move m r_unlock (record m { cache_mutex = m.cache_mutex + 1 }) r_leave
  read_leave : Move m r_leave (record m { read_mutex = m.read_mutex + 1 }) idle
  write_begin :
      0 < m.write_mutex → Move m idle (record m { write_mutex = m.write_mutex - 1 }) w_count
  writers_first :
      m.write_count + 1 ≡ 1 → Move m w_count (record m { write_count = m.write_count + 1 }) w_lock
  writers_more :
      m.write_count + 1 ≢ 1
      → Move m w_count (record m { write_count = m.write_count + 1 }) w_free_mutex
  lock_try : 0 < m.read_try → Move m w_lock (record m { read_try = m.read_try - 1 }) w_free_mutex
  write_mutex_out : Move m w_free_mutex (record m { write_mutex = m.write_mutex + 1 }) w_enter
  write_cache :
      0 < m.cache_mutex → Move m w_enter (record m { cache_mutex = m.cache_mutex - 1 }) writing
  write_end : Move m writing (record m { cache_mutex = m.cache_mutex + 1 }) w_done
  write_again :
      0 < m.write_mutex → Move m w_done (record m { write_mutex = m.write_mutex - 1 }) w_uncount
  writers_last :
      m.write_count - 1 ≡ 0
      → Move m w_uncount (record m { write_count = m.write_count - 1 }) w_unlock
  writers_left :
      m.write_count - 1 ≢ 0
      → Move m w_uncount (record m { write_count = m.write_count - 1 }) w_leave
  unlock_try : Move m w_unlock (record m { read_try = m.read_try + 1 }) w_leave
  write_leave : Move m w_leave (record m { write_mutex = m.write_mutex + 1 }) idle

pub record System : Type 0 where
  pub shared : Shared
  pub threads : List Pc

-- The scheduler lets thread `i` make its next move.
pub data Step (s : System) : System → Type 0 where
  run :
      (i : ℕ) {p p' : Pc} {m : Shared}
      → get_elem? s.threads i ≡ some p
      → Move s.shared p m p'
      → Step s (record { shared = m; threads = set s.threads i p' })

-- What `n` threads come to from the start.
pub data Reach (n : ℕ) : System → Type 0 where
  start : Reach n (record { shared = init_shared; threads = replicate n idle })
  later : {s t : System} → Reach n s → Step s t → Reach n t
