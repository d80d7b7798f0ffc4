-- ===== src/Server/Tests.antt =====
-- Runs of the server's parts on small inputs, and the theorems at inputs that meet their hypotheses.
use cse344_assignments.Base.{
  ℕ, zero, suc, ◌+◌, ◌<◌, ◌≡◌, refl, ◌≢◌, Option, none, some, List, [], ◌∷◌, arith, Result, ok, err,
  out_of_bounds, replicate, dec_lt,
}
use cse344_assignments.Server.Queue.{
  Queue, size, create_queue, enqueue, enqueue_within, append, dequeue, copy, back, is_full,
  is_empty, enlarge, move_all,
}
use cse344_assignments.Server.Queue.Fifo.{
  Op, put, take, newest, ask_size, observe, on_queue, on_list, observe-refines,
}
use cse344_assignments.Server.Graph.{Graph, edge}
use cse344_assignments.Server.Graph.Laws.{IsGraph, HasEdge}
use cse344_assignments.Server.Bfs.{bfs, rounds, scan, degree}
use cse344_assignments.Server.Bfs.Correct.{IsAnswer, bfs_correct, bfs_returns, bfs-out_of_bounds}
use cse344_assignments.Server.Cache.{Cache, create_cache, to_cache, get_cache}
use cse344_assignments.Server.Cache.Laws.{get_cache-create_cache, get_cache-out_of_bounds}
use cse344_assignments.Libc.{decimal}
use cse344_assignments.Server.Packet.{prepare_packet, digit}
use cse344_assignments.Server.Handler.{calculate, respond}
use cse344_assignments.Server.Handler.Correct.{IsSound, Served, respond_correct}

-- 0 → 1 → 2 → 3 and 0 → 2; nothing leads to 0.
abbrev sample : Graph
sample = record {
  V = 4;
  list = (2 ∷ 1 ∷ []) ∷ (2 ∷ []) ∷ (3 ∷ []) ∷ [] ∷ [];
  visited = replicate 4 0;
}

sample-IsGraph : IsGraph sample
sample-IsGraph = record { sized = refl; closed = inside }
  where
    inside : (u v : ℕ) → HasEdge sample u v → v < 4
    inside zero v h = omega arith
    inside (suc zero) v h = omega arith
    inside (suc (suc zero)) v h = omega arith
    inside (suc (suc (suc zero))) v h = absurd h
    inside (suc (suc (suc (suc u)))) v h = absurd h

-- The contents of a queue, as `prepare_packet` takes them out.
drain : ℕ → Queue ℕ → List ℕ
drain zero q = []
drain (suc n) q = elim (dequeue q) [ ok (x, q') ↦ x ∷ drain n q' | err e ↦ [] ]

answer : Result (Option (Queue ℕ)) → Option (List ℕ)
unfolding drain
answer (ok (some q)) = some (drain q.size q)
answer _ = none

sample_paths :
    (answer (bfs sample 0 3) ≡ some (0 ∷ 2 ∷ 3 ∷ []))
    × (answer (bfs sample 1 1) ≡ some (1 ∷ []))
    × (answer (bfs sample 1 2) ≡ some (1 ∷ 2 ∷ []))
    × (bfs sample 3 0 ≡ ok none)
unfolding answer bfs edge rounds scan create_queue enqueue enqueue_within append dequeue back copy
    is_full is_empty enlarge move_all
sample_paths = (refl, refl, refl, refl)

-- A chain 0 → 1 → … of 20 vertices, of degree 1.
chain_to : ℕ → ℕ → List (List ℕ)
chain_to zero i = [] ∷ []
chain_to (suc n) i = ((i + 1) ∷ []) ∷ chain_to n (i + 1)

abbrev chain : Graph
chain = record { V = 20; list = chain_to 19 0; visited = replicate 20 0 }

-- A walk of 17 vertices is found, and one of 18 overruns the copy.
chain_overrun :
    (answer (bfs chain 2 18)
      ≡ some (2 ∷ 3 ∷ 4 ∷ 5 ∷ 6 ∷ 7 ∷ 8 ∷ 9 ∷ 10 ∷ 11 ∷ 12 ∷ 13 ∷ 14 ∷ 15 ∷ 16 ∷ 17 ∷ 18 ∷ []))
    × (bfs chain 1 18 ≡ err out_of_bounds)
unfolding answer chain_to bfs edge rounds scan create_queue enqueue enqueue_within append dequeue
    back copy is_full is_empty enlarge move_all
chain_overrun = (refl, refl)

-- The queue with the walk 0 → 2 → 3 in its line of 16 slots.
abbrev found : Queue ℕ
found = record {
  front = 0;
  back = 2;
  cap = 16;
  size = 3;
  line = some 0 ∷ some 2 ∷ some 3 ∷ replicate 13 none;
}

bfs-found : bfs sample 0 3 ≡ ok (some found)
unfolding bfs edge rounds scan create_queue enqueue enqueue_within append dequeue back copy is_full
    is_empty enlarge move_all
bfs-found = refl

bfs_correct_example : IsAnswer sample 0 3 (some found)
bfs_correct_example =
    bfs_correct sample 0 3 (some found) sample-IsGraph (omega arith) (omega arith) bfs-found

bfs_returns_example : (r : Option (Queue ℕ)) × (bfs sample 0 3 ≡ ok r)
bfs_returns_example =
    bfs_returns sample 0 3 sample-IsGraph (omega arith) (omega arith)
      (unfold degree in (omega arith))

bfs-out_of_bounds_example : bfs sample 9 3 ≡ err out_of_bounds
bfs-out_of_bounds_example = bfs-out_of_bounds sample 9 3 (omega arith) (omega arith)

-- A cache of the sample graph with nothing in it.
abbrev cold : Cache
cold = create_cache 4

cold-IsSound : IsSound sample cold
unfolding create_cache
cold-IsSound = record { sized = refl; right = λ i j text h. absurd (nothing i j text h) }
  where
    nothing : (i j : ℕ) (text : List ℕ) → get_cache cold i j ≢ ok (some text)
    nothing i j text h = elim (dec_lt i 4) [
      | yes lt ↦ ground (arith, h, get_cache-create_cache 4 i j lt)
      | no ge ↦
          ground (arith, h, get_cache-out_of_bounds cold i j (unfold create_cache in (omega arith)))
    ]

-- "0->2->3."
abbrev text : List ℕ
text = b'0' ∷ b'-' ∷ b'>' ∷ b'2' ∷ b'-' ∷ b'>' ∷ b'3' ∷ b'.' ∷ []

abbrev warm : Cache
warm = record { V = 4; list = (record { vertex = 3; path = text } ∷ []) ∷ [] ∷ [] ∷ [] ∷ [] }

respond-text : respond sample cold 0 3 ≡ ok (text, warm)
unfolding respond calculate get_cache create_cache to_cache prepare_packet digit decimal size bfs
    edge rounds scan create_queue enqueue enqueue_within append dequeue back copy is_full is_empty
    enlarge move_all
respond-text = refl

respond_correct_example : Served sample 0 3 text warm
respond_correct_example =
    respond_correct sample sample-IsGraph cold 0 3 (omega arith) cold-IsSound text warm
      (omega arith) respond-text

-- Three items in a queue of two slots, which is enlarged once; then two calls that look at it.
abbrev calls : List (Op ℕ)
calls = put 5 ∷ put 6 ∷ put 7 ∷ take ∷ newest ∷ ask_size ∷ []

observe-refines_example : observe on_queue calls (create_queue 2) ≡ observe on_list calls []
observe-refines_example =
    observe-refines calls 2 (omega arith) (omega arith) (29, refl) (omega arith)
