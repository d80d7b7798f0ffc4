-- ===== src/Florists/Shop.antt =====
-- The supervisor and the florist threads of homework-5/solution/source/program.c. What a thread does
-- while it holds the mutex is one step. A florist in `pthread_cond_wait` sleeps until a broadcast wakes it,
-- and then locks the mutex and looks at its queue again; it does not wake up of itself. `total_time`, which
-- only `print_stats` reads, is left out. A client is its index; `chosen` is `find_florist` of a client.
pub mod Duty
pub mod Wakeups
pub mod Sales
pub mod Progress
use cse344_assignments.Base.{
  ℕ, ◌+◌, ◌<◌, ◌≡◌, Bool, true, false, List, [], ◌∷◌, some, get_elem?, set, replicate, ok,
}
use cse344_assignments.Server.Queue.{Queue, create_queue, is_empty, dequeue}
use cse344_assignments.Florists.Queue.{enqueue}

-- Where a florist stands: before its lock, in `pthread_cond_wait`, on its way to a client, or gone.
pub data Pc : Type 0 where
  waiting : Pc
  asleep : Pc
  delivering : ℕ → Pc
  closed : Pc

-- A florist with its queue.
pub record Worker : Type 0 where
  pub queue : Queue ℕ
  pub pc : Pc
  pub total_sale : ℕ

-- The supervisor has handed out the requests before `next`.
pub record Shop : Type 0 where
  pub next : ℕ
  pub finished : Bool
  pub florists : List Worker

-- `pthread_cond_broadcast`.
unfoldable pub wake : Pc → Pc
wake waiting = waiting
wake asleep = waiting
wake (delivering client) = delivering client
wake closed = closed

abbrev pub woken : Worker → Worker
woken w = record w { pc = wake w.pc }

unfoldable pub broadcast : List Worker → List Worker
unfolding wake
broadcast [] = []
broadcast (w ∷ florists) = woken w ∷ broadcast florists

-- What `assign_florists` leaves: `count` florists, each with a queue for all of the clients.
unfoldable pub assign_florists : ℕ → ℕ → Shop
assign_florists count clients = record {
  next = 0;
  finished = false;
  florists =
      replicate count (record { queue = create_queue clients; pc = waiting; total_sale = 0 });
}

module _ (clients : ℕ) (chosen : ℕ → ℕ) where
  pub data Step (s : Shop) : Shop → Type 0 where
    -- `supervisor`: the next request.
    request :
        {w : Worker} {q : Queue ℕ}
        → s.next < clients
        → get_elem? s.florists (chosen s.next) ≡ some w
        → enqueue w.queue s.next ≡ ok q
        → Step s (record s {
          next = s.next + 1;
          florists = broadcast (set s.florists (chosen s.next) (record w { queue = q }));
        })
    -- `supervisor`: after the last one.
    finish :
        s.next ≡ clients
        → s.finished ≡ false
        → Step s (record s { finished = true; florists = broadcast s.florists })
    -- `florist`: from the lock into `pthread_cond_wait`, which unlocks the mutex.
    sleep :
        (k : ℕ) {w : Worker}
        → get_elem? s.florists k ≡ some w
        → w.pc ≡ waiting
        → is_empty w.queue ≡ true
        → s.finished ≡ false
        → Step s (record s { florists = set s.florists k (record w { pc = asleep }) })
    -- `florist`: up to the unlock after `dequeue`.
    take :
        (k : ℕ) {w : Worker} {client : ℕ} {q : Queue ℕ}
        → get_elem? s.florists k ≡ some w
        → w.pc ≡ waiting
        → dequeue w.queue ≡ ok (client, q)
        → Step s (record s {
          florists = set s.florists k (record w { queue = q; pc = delivering client });
        })
    -- `florist`: from there round to the lock, after some time.
    deliver :
        (k : ℕ) {w : Worker} {client : ℕ}
        → get_elem? s.florists k ≡ some w
        → w.pc ≡ delivering client
        → Step s (record s {
          florists = set s.florists k (record w { pc = waiting; total_sale = w.total_sale + 1 });
        })
    -- `florist`: the break.
    close :
        (k : ℕ) {w : Worker}
        → get_elem? s.florists k ≡ some w
        → w.pc ≡ waiting
        → s.finished ≡ true
        → is_empty w.queue ≡ true
        → Step s (record s { florists = set s.florists k (record w { pc = closed }) })

  -- What `count` florists come to.
  pub data Reach (count : ℕ) : Shop → Type 0 where
    start : Reach count (assign_florists count clients)
    later : {s t : Shop} → Reach count s → Step s t → Reach count t
