-- ===== src/Server/Pool.antt =====
-- The load of the pool of `connection_handler` threads and its growth in `pool_resizer`, of
-- final-project/solution/source/server.c. The arithmetic on `float` is that of the machine, and given.
use cse344_assignments.Base.{ℕ, ◌+◌, ◌-◌, Bool, true, if◌then◌else◌}

-- The operations on `float` that the load uses, and its two literals.
pub record Floats (F : Type 0) : Type 0 where
  pub of_int : ℕ → F
  pub to_int : F → ℕ
  pub plus : F → F → F
  pub times : F → F → F
  pub quotient : F → F → F
  pub at_most : F → F → Bool
  pub max_load : F
  pub grow_size : F

-- `struct DynamicPoolerResource`, its array of threads and `load_mutex` left out: `n` counts the resizer
-- too.
pub record Pool : Type 0 where
  pub n : ℕ
  pub pooler_sem : ℕ
  pub resize : Bool
  pub handler_count : ℕ

module _ {F : Type 0} (floats : Floats F) where
  -- load = handler_count / (float)(n - 1)
  abbrev pub load : Pool → F
  load pool = floats.quotient (floats.of_int pool.handler_count) (floats.of_int (pool.n - 1))

  unfoldable pub need_resize : F → Bool
  need_resize l = floats.at_most floats.max_load l

  -- The test of `pool_resizer`, and its new `n`.
  unfoldable pub can_grow : ℕ → Pool → Bool
  can_grow max_thread pool =
      floats.at_most (floats.times (floats.of_int pool.n) floats.grow_size)
        (floats.of_int max_thread)

  unfoldable pub grown : Pool → ℕ
  grown pool =
      floats.to_int
        (floats.plus (floats.times (floats.of_int (pool.n - 1)) floats.grow_size) (floats.of_int 1))

-- A handler counts itself as busy.
unfoldable pub take_connection : Pool → Pool
take_connection pool = record pool { handler_count = pool.handler_count + 1 }

-- Above the load it wakes the resizer, but not twice.
unfoldable pub wake_pooler : Pool → Pool
wake_pooler pool =
    if pool.resize then pool else record pool { resize = true; pooler_sem = pool.pooler_sem + 1 }

unfoldable pub finish_connection : Pool → Pool
finish_connection pool = record pool { handler_count = pool.handler_count - 1 }
