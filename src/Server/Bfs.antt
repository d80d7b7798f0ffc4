-- ===== src/Server/Bfs.antt =====
-- `BFS` of final-project/solution/source/graph.h, over the queues of queue.h: `paths` is a queue of
-- pointers to queues, which nothing else points to, so each item of it is the queue itself.
pub mod Explore
pub mod Trace
pub mod Shortest
pub mod Trails
pub mod Ends
pub mod Refine
pub mod Simulate
pub mod Correct
use cse344_assignments.Base.{
  ℕ, zero, suc, ◌+◌, ◌^◌, max, Option, none, some, List, [], ◌∷◌, ◌==◌, if◌then◌else◌, out_of_fuel,
  Result, ok, err, ◌>>=◌, load, store, replicate, length,
}
use cse344_assignments.Server.Queue.{Queue, create_queue, is_empty, enqueue, dequeue, back, copy}
use cse344_assignments.Server.Graph.{Graph, edge}

pub record Search : Type 0 where
  pub paths : Queue (Queue ℕ)
  pub visited : List ℕ

-- One turn of the inner `while`, at the neighbour `vertex` of the end of `path`.
unfoldable pub offer : Queue ℕ → ℕ → Search → Result Search
offer path vertex s = do
  seen ← load s.visited vertex
  if seen == 0
      then (do
        copied ← copy path (create_queue 16)
        new_path ← enqueue copied vertex
        paths ← enqueue s.paths new_path
        ok (record s { paths = paths }))
      else ok s

-- The inner `while` along the chain of neighbours.
unfoldable pub scan : Queue ℕ → List ℕ → Search → Result Search
unfolding offer
scan path [] s = ok s
scan path (vertex ∷ next) s = offer path vertex s >>= scan path next

-- The outer `while`, for at most `fuel` rounds. The path that is found, or NULL.
unfoldable pub search : Graph → ℕ → ℕ → Search → Result (Option (Queue ℕ))
unfolding scan
search graph end zero s = err out_of_fuel
search graph end (suc fuel) s = if is_empty s.paths then ok none else do
  (path, paths) ← dequeue s.paths
  node ← back path
  if node == end then ok (some path) else (do
    adj ← load graph.list node
    visited ← store s.visited node 1
    s' ← scan path adj (record { paths = paths; visited = visited })
    search graph end fuel s')

-- The length of the longest chain.
unfoldable pub degree : List (List ℕ) → ℕ
degree [] = 0
degree (adj ∷ list) = max (length adj) (degree list)

-- Enough rounds for the outer `while`: no more paths than this are taken from the queue.
unfoldable pub rounds : Graph → ℕ
unfolding degree
rounds graph = suc ((degree graph.list + 1) ^ graph.V)

unfoldable pub bfs : Graph → ℕ → ℕ → Result (Option (Queue ℕ))
unfolding search
bfs graph start end =
    if start == end
    then (do result ← enqueue (create_queue graph.V) start; ok (some result))
    else (do
      near ← edge graph start end
      if near
          then (do
            result ← enqueue (create_queue graph.V) start
            result' ← enqueue result end
            ok (some result'))
          else (do
            path ← enqueue (create_queue 16) start
            paths ← enqueue (create_queue 1024) path
            search graph end (rounds graph)
                (record { paths = paths; visited = replicate graph.V 0 })))
