-- ===== src/Server/Bfs/Explore.antt =====
-- The search of graph.h on plain lists: a path is the list of its vertices, the newest first, and
-- the queue of paths is a list. `Refine` shows that the queues do what is done here.
use cse344_assignments.Base.{
  ℕ, zero, suc, ◌≢◌, List, [], ◌∷◌, ◌++◌, ◌==◌, if◌then◌else◌, get_or, set,
}
use cse344_assignments.Server.Graph.{Graph}
use cse344_assignments.Server.Graph.Laws.{targets, HasEdge}

-- The walks from `start`, as lists of vertices with the newest first.
pub data Walk (g : Graph) (start : ℕ) : List ℕ → Type 0 where
  one : Walk g start (start ∷ [])
  step : {u v : ℕ} {p : List ℕ} → Walk g start (u ∷ p) → HasEdge g u v → Walk g start (v ∷ u ∷ p)

abbrev pub Marked : List ℕ → ℕ → Type 0
Marked visited v = get_or visited v 0 ≢ 0

pub data Outcome : Type 0 where
  found : List ℕ → Outcome
  missing : Outcome
  unfinished : Outcome

-- The paths that the inner loop adds for the path `p`.
abbrev pub extend : List ℕ → List ℕ → List ℕ → List (List ℕ)
extend visited p [] = []
extend visited p (v ∷ adj) =
    let rest = extend visited p adj in if get_or visited v 0 == 0 then (v ∷ p) ∷ rest else rest

module _ (g : Graph) (end : ℕ) where
  unfoldable pub explore : ℕ → List (List ℕ) → List ℕ → Outcome
  explore zero pending visited = unfinished
  explore (suc n) [] visited = missing
  explore (suc n) ([] ∷ rest) visited = unfinished
  explore (suc n) ((u ∷ p) ∷ rest) visited =
      let next =
        explore n (rest ++ extend (set visited u 1) (u ∷ p) (targets g u)) (set visited u 1) in
      if u == end then found (u ∷ p) else next
