-- ===== src/Server/Graph.antt =====
-- The directed graph of final-project/solution/source/graph.h. The chain of `AdjacencyNode`s of a
-- vertex is the list of their vertices; `list` and `visited` are the two arrays of `V` entries.
pub mod Laws
use cse344_assignments.Base.{
  ℕ, Bool, true, false, List, [], ◌∷◌, ◌==◌, if◌then◌else◌, Result, ok, ◌>>=◌, load, store,
  replicate,
}

pub record Graph : Type 0 where
  pub V : ℕ
  pub list : List (List ℕ)
  pub visited : List ℕ

unfoldable pub create_graph : ℕ → Graph
create_graph V = record { V = V; list = replicate V []; visited = replicate V 0 }

-- The new node goes in front of the chain of `i`.
unfoldable pub add_edge : Graph → ℕ → ℕ → Result Graph
add_edge graph i j = do
  node ← load graph.list i
  list ← store graph.list i (j ∷ node)
  ok (record graph { list = list })

-- The walk of `edge` along a chain.
unfoldable pub has_vertex : List ℕ → ℕ → Bool
has_vertex [] j = false
has_vertex (vertex ∷ next) j = if vertex == j then true else has_vertex next j

unfoldable pub edge : Graph → ℕ → ℕ → Result Bool
unfolding has_vertex
edge graph i j = do node ← load graph.list i; ok (has_vertex node j)
