-- ===== src/Server/Examples.antt =====
-- The theorems on the queue, the cache, the packet, the pool and the semaphores at concrete inputs.
use cse344_assignments.Base.{
  ℕ, ◌≡◌, ◌≢◌, refl, Option, none, some, List, [], ◌∷◌, length, if◌then◌else◌, ◌==◌, ◌&&◌, arith,
  ok, err, out_of_bounds, replicate,
}
use cse344_assignments.Server.Queue.{
  Queue, create_queue, enqueue, enqueue_within, is_full, is_empty, enlarge, move_all, append,
  dequeue,
}
use cse344_assignments.Server.Queue.Inv.{IsQueue}
use cse344_assignments.Server.Bfs.{Search, offer}
use cse344_assignments.Server.Bfs.Refine.{IsPath, offer_overrun}
use cse344_assignments.Server.Cache.{Cache, create_cache, to_cache, get_cache}
use cse344_assignments.Server.Cache.Laws.{get_cache-to_cache}
use cse344_assignments.Server.Packet.{prepare_packet, digit, digit_loop}
use cse344_assignments.Server.Packet.Fits.{render, prepare_packet_fits}
use cse344_assignments.Server.Database.{
  reading, writing, w_enter, System, Step, run, Reach, start, later, write_begin, writers_first,
  writers_more, lock_try, write_mutex_out, write_cache,
}
use cse344_assignments.Server.Database.Exclusion.{writing-excludes}
use cse344_assignments.Server.Database.Progress.{no_deadlock}

-- A full queue of two slots whose items wrap around: 5, then 6.
abbrev wrapped : Queue ℕ
wrapped = record { front = 1; back = 0; cap = 2; size = 2; line = some 6 ∷ some 5 ∷ [] }

wrapped-IsQueue : IsQueue wrapped (5 ∷ 6 ∷ [])
wrapped-IsQueue = record {
  count = refl;
  room = omega arith;
  alloc = omega arith;
  small = omega arith;
  front_in = omega arith;
  back_at = refl;
  slots = (refl, (refl, tt));
}

-- `enqueue` makes it a queue of four slots, in order from the first.
abbrev enlarged : Queue ℕ
enlarged = record {
  front = 0;
  back = 2;
  cap = 4;
  size = 3;
  line = some 5 ∷ some 6 ∷ some 7 ∷ none ∷ [];
}

enqueue-wrapped : enqueue wrapped 7 ≡ ok enlarged
unfolding enqueue enqueue_within is_full enlarge move_all is_empty dequeue create_queue append
enqueue-wrapped = refl

-- A path of 17 vertices, in the line of 32 slots that it has outgrown its first one for.
abbrev grown_line : List (Option ℕ)
grown_line =
    some 0
    ∷ some 1
    ∷ some 2
    ∷ some 3
    ∷ some 4
    ∷ some 5
    ∷ some 6
    ∷ some 7
    ∷ some 8
    ∷ some 9
    ∷ some 10
    ∷ some 11
    ∷ some 12
    ∷ some 13
    ∷ some 14
    ∷ some 15
    ∷ some 16
    ∷ replicate 15 none

abbrev grown_path : Queue ℕ
grown_path = record { front = 0; back = 16; cap = 32; size = 17; line = grown_line }

abbrev grown_trail : List ℕ
grown_trail = 16 ∷ 15 ∷ 14 ∷ 13 ∷ 12 ∷ 11 ∷ 10 ∷ 9 ∷ 8 ∷ 7 ∷ 6 ∷ 5 ∷ 4 ∷ 3 ∷ 2 ∷ 1 ∷ 0 ∷ []

grown_path-IsPath : IsPath grown_path grown_trail
grown_path-IsPath = record {
  holds = record {
    count = refl;
    room = omega arith;
    alloc = omega arith;
    small = omega arith;
    front_in = omega arith;
    back_at = refl;
    slots = (
      refl,
      (
        refl,
        (
          refl,
          (
            refl,
            (
              refl,
              (
                refl,
                (
                  refl,
                  (
                    refl,
                    (refl, (refl, (refl, (refl, (refl, (refl, (refl, (refl, (refl, tt))))))))),
                  ),
                ),
              ),
            ),
          ),
        ),
      ),
    );
  };
  doubled = (25, refl);
  short = λ h. absurd (omega arith);
}

abbrev searching : Search
searching = record { paths = create_queue 1024; visited = replicate 20 0 }

offer_overrun_example : offer grown_path 17 searching ≡ err out_of_bounds
offer_overrun_example =
    offer_overrun grown_path grown_trail 17 searching grown_path-IsPath (omega arith) (omega arith)
      refl

get_cache-to_cache_example :
    (c : Cache) × (to_cache (create_cache 3) 1 2 (b'x' ∷ []) ≡ ok c)
    × (length c.list ≡ length (create_cache 3).list)
    × ((i' j' : ℕ)
        → get_cache c i' j' ≡ (
            if (1 == i') && (2 == j')
            then ok (some (b'x' ∷ []))
            else get_cache (create_cache 3) i' j'))
get_cache-to_cache_example =
    get_cache-to_cache (create_cache 3) 1 2 (b'x' ∷ []) (unfold create_cache in (omega arith))

prepare_packet_fits_example : prepare_packet 100 (some wrapped) ≡ ok (render (5 ∷ 6 ∷ []))
prepare_packet_fits_example =
    prepare_packet_fits 100 (5 ∷ 6 ∷ []) wrapped wrapped-IsQueue (omega arith, (omega arith, tt))
      (unfold digit digit_loop in (omega arith))

-- Two writers: the first in the cache, the second waiting for it.
abbrev contended : System
contended = record {
  shared = record {
    read_try = 0;
    read_mutex = 1;
    write_mutex = 1;
    cache_mutex = 0;
    read_count = 0;
    write_count = 2;
  };
  threads = writing ∷ w_enter ∷ [];
}

contended-Reach : Reach 2 contended
contended-Reach =
    later
      (later
        (later
          (later
            (later
              (later
                (later (later start (run 0 refl (write_begin (omega arith))))
                  (run 0 refl (writers_first refl)))
                (run 0 refl (lock_try (omega arith))))
              (run 0 refl write_mutex_out))
            (run 1 refl (write_begin (omega arith))))
          (run 1 refl (writers_more (omega arith))))
        (run 1 refl write_mutex_out))
      (run 0 refl (write_cache (omega arith)))

writing-excludes_example : (w_enter ≢ reading) × (w_enter ≢ writing)
writing-excludes_example = writing-excludes contended-Reach 0 1 (omega arith) refl refl

no_deadlock_example : (t : System) × Step contended t
no_deadlock_example = no_deadlock 2 contended (omega arith) contended-Reach
