-- ===== src/Server/Database/Counts.antt =====
-- How many threads stand where, and who holds which semaphore: true at the start, kept by each step.
use cse344_assignments.Base.{ℕ, ◌+◌, ◌≤◌, ◌<◌, ◌≡◌, ◌⊎◌, some, List, get_elem?, set, arith}
use cse344_assignments.Base.{tally, tally-set, tally-le}
use cse344_assignments.Server.Database.{
  Shared, Pc, r_enter, r_count, r_lock, r_free_mutex, r_free_try, reading, r_uncount, r_unlock,
  r_leave, w_count, w_lock, w_free_mutex, w_enter, writing, w_done, w_uncount, w_unlock, w_leave,
  Move, read_begin, read_mutex_in, count_first, count_more, lock_cache, read_mutex_out,
  read_try_out, read_end, uncount_last, uncount_more, unlock_cache, read_leave, write_begin,
  writers_first, writers_more, lock_try, write_mutex_out, write_cache, write_end, write_again,
  writers_last, writers_left, unlock_try, write_leave,
}

-- The holders of `read_mutex`.
abbrev pub in_read_mutex : Pc → ℕ
in_read_mutex r_count = 1
in_read_mutex r_lock = 1
in_read_mutex r_free_mutex = 1
in_read_mutex r_uncount = 1
in_read_mutex r_unlock = 1
in_read_mutex r_leave = 1
in_read_mutex _ = 0

abbrev pub in_write_mutex : Pc → ℕ
in_write_mutex w_count = 1
in_write_mutex w_lock = 1
in_write_mutex w_free_mutex = 1
in_write_mutex w_uncount = 1
in_write_mutex w_unlock = 1
in_write_mutex w_leave = 1
in_write_mutex _ = 0

-- The readers that have the cache, between its locking and the last decrement.
abbrev pub readers : Pc → ℕ
readers r_free_mutex = 1
readers r_free_try = 1
readers reading = 1
readers r_uncount = 1
readers _ = 0

abbrev pub locking : Pc → ℕ
locking r_lock = 1
locking _ = 0

abbrev pub unlocking : Pc → ℕ
unlocking r_unlock = 1
unlocking _ = 0

abbrev pub writers : Pc → ℕ
writers writing = 1
writers _ = 0

-- The readers that hold `read_try`.
abbrev pub entering : Pc → ℕ
entering r_enter = 1
entering r_count = 1
entering r_lock = 1
entering r_free_mutex = 1
entering r_free_try = 1
entering _ = 0

-- The writers on whose behalf `read_try` is held.
abbrev pub claims : Pc → ℕ
claims w_free_mutex = 1
claims w_enter = 1
claims writing = 1
claims w_done = 1
claims w_uncount = 1
claims _ = 0

abbrev pub claiming : Pc → ℕ
claiming w_lock = 1
claiming _ = 0

abbrev pub releasing : Pc → ℕ
releasing w_unlock = 1
releasing _ = 0

pub record Inv (m : Shared) (ps : List Pc) : Type 0 where
  pub read_mutex : m.read_mutex + tally in_read_mutex ps ≡ 1
  pub write_mutex : m.write_mutex + tally in_write_mutex ps ≡ 1
  pub read_count : m.read_count ≡ tally locking ps + tally readers ps
  pub write_count : m.write_count ≡ tally claiming ps + tally claims ps
  pub cache :
      ((tally readers ps ≡ 0) × (m.cache_mutex + tally writers ps + tally unlocking ps ≡ 1))
      ⊎ ((0 < tally readers ps)
          × (tally locking ps + tally unlocking ps ≡ 0)
          × (m.cache_mutex + tally writers ps ≡ 0))
  pub try :
      ((tally claims ps ≡ 0) × (m.read_try + tally entering ps + tally releasing ps ≡ 1))
      ⊎ ((0 < tally claims ps)
          × (tally claiming ps + tally releasing ps ≡ 0)
          × (m.read_try + tally entering ps ≡ 0))

-- The change of every count when one thread goes from `p` to `p'`.
pub record Change (ps ps' : List Pc) (p p' : Pc) : Type 0 where
  c1 : tally in_read_mutex ps' + in_read_mutex p ≡ tally in_read_mutex ps + in_read_mutex p'
  c2 : tally in_write_mutex ps' + in_write_mutex p ≡ tally in_write_mutex ps + in_write_mutex p'
  c3 : tally readers ps' + readers p ≡ tally readers ps + readers p'
  c4 : tally locking ps' + locking p ≡ tally locking ps + locking p'
  c5 : tally unlocking ps' + unlocking p ≡ tally unlocking ps + unlocking p'
  c6 : tally writers ps' + writers p ≡ tally writers ps + writers p'
  c7 : tally entering ps' + entering p ≡ tally entering ps + entering p'
  c8 : tally claims ps' + claims p ≡ tally claims ps + claims p'
  c9 : tally claiming ps' + claiming p ≡ tally claiming ps + claiming p'
  c10 : tally releasing ps' + releasing p ≡ tally releasing ps + releasing p'
  r1 :
      tally locking ps + tally unlocking ps + in_read_mutex p
      ≤ tally in_read_mutex ps + (locking p + unlocking p)
  r2 :
      tally claiming ps + tally releasing ps + in_write_mutex p
      ≤ tally in_write_mutex ps + (claiming p + releasing p)

pub change :
    (ps : List Pc) (i : ℕ) {p : Pc} (p' : Pc)
    → get_elem? ps i ≡ some p
    → Change ps (set ps i p') p p'
change ps i p' e = record {
  c1 = tally-set in_read_mutex ps i p' e;
  c2 = tally-set in_write_mutex ps i p' e;
  c3 = tally-set readers ps i p' e;
  c4 = tally-set locking ps i p' e;
  c5 = tally-set unlocking ps i p' e;
  c6 = tally-set writers ps i p' e;
  c7 = tally-set entering ps i p' e;
  c8 = tally-set claims ps i p' e;
  c9 = tally-set claiming ps i p' e;
  c10 = tally-set releasing ps i p' e;
  r1 = tally-le locking unlocking in_read_mutex ps i (λ q. ground arith) e;
  r2 = tally-le claiming releasing in_write_mutex ps i (λ q. ground arith) e;
}

pub Move-Inv :
    {m m' : Shared} {ps ps' : List Pc} {p p' : Pc}
    → Move m p m' p'
    → Change ps ps' p p'
    → Inv m ps
    → Inv m' ps'
Move-Inv (read_begin g) c v = omega arith
Move-Inv (read_mutex_in g) c v = omega arith
Move-Inv (count_first g) c v = omega arith
Move-Inv (count_more g) c v = omega arith
Move-Inv (lock_cache g) c v = omega arith
Move-Inv read_mutex_out c v = omega arith
Move-Inv read_try_out c v = omega arith
Move-Inv (read_end g) c v = omega arith
Move-Inv (uncount_last g) c v = omega arith
Move-Inv (uncount_more g) c v = omega arith
Move-Inv unlock_cache c v = omega arith
Move-Inv read_leave c v = omega arith
Move-Inv (write_begin g) c v = omega arith
Move-Inv (writers_first g) c v = omega arith
Move-Inv (writers_more g) c v = omega arith
Move-Inv (lock_try g) c v = omega arith
Move-Inv write_mutex_out c v = omega arith
Move-Inv (write_cache g) c v = omega arith
Move-Inv write_end c v = omega arith
Move-Inv (write_again g) c v = omega arith
Move-Inv (writers_last g) c v = omega arith
Move-Inv (writers_left g) c v = omega arith
Move-Inv unlock_try c v = omega arith
Move-Inv write_leave c v = omega arith
