-- ===== src/Server/Graph/Laws.antt =====
-- What the graph of graph.h stands for: its edges, and how `add_edge` adds to them.
use cse344_assignments.Base.{
  ℕ, zero, suc, ◌<◌, ◌≤◌, ◌≡◌, refl, ◌∙◌, ◌⊎◌, ◌↔◌, Bool, true, List, [], ◌∷◌, ok, err, load,
  replicate, length, get_or, set, get_or-set, Any, length-replicate, length-set, store_lem,
  out_of_bounds, load-out_of_bounds, arith, ℕ_discrete,
}
use cse344_assignments.Server.Graph.{Graph, create_graph, add_edge, has_vertex, edge}

-- The vertices of the chain of `u`; none past the end of the array.
abbrev pub targets : Graph → ℕ → List ℕ
targets g u = get_or g.list u []

abbrev pub HasEdge : Graph → ℕ → ℕ → Type 0
HasEdge g u v = Any (λ w. w ≡ v) (targets g u)

-- `list` has an entry for each vertex, and every edge leads to a vertex.
pub record IsGraph (g : Graph) : Type 0 where
  pub sized : length g.list ≡ g.V
  pub closed : (u v : ℕ) → HasEdge g u v → v < g.V

pub load-targets : (g : Graph) (u : ℕ) → u < length g.list → load g.list u ≡ ok (targets g u)
load-targets g u = load-get_or g.list u
  where
    load-get_or : (xs : List (List ℕ)) (i : ℕ) → i < length xs → load xs i ≡ ok (get_or xs i [])
    load-get_or [] i h = elim h [ ]
    load-get_or (x ∷ xs) zero h = refl
    load-get_or (x ∷ xs) (suc i) h = load-get_or xs i (omega arith)

has_vertex_iff : (vs : List ℕ) (v : ℕ) → (has_vertex vs v ≡ true) ↔ Any (λ w. w ≡ v) vs
unfolding has_vertex
has_vertex_iff [] v = (λ h. cc, λ h. absurd h)
has_vertex_iff (w ∷ vs) v = ground (arith, has_vertex_iff vs v)

-- For a source that has an entry in the graph edge tells whether there is an edge to the other
-- vertex.
pub edge_decides :
    (g : Graph) (i j : ℕ)
    → i < length g.list
    → (b : Bool) × (edge g i j ≡ ok b) × ((b ≡ true) ↔ HasEdge g i j)
unfolding edge
edge_decides g i j lt =
    (has_vertex (targets g i) j, rw (load-targets g i lt), has_vertex_iff (targets g i) j)

-- Outside the array `edge` reads past its end.
pub edge-out_of_bounds : (g : Graph) (i j : ℕ) → length g.list ≤ i → edge g i j ≡ err out_of_bounds
unfolding edge
edge-out_of_bounds g i j h = rw (load-out_of_bounds g.list i h)

get_or-replicate : (n u : ℕ) → get_or {A = List ℕ} (replicate n []) u [] ≡ []
get_or-replicate zero u = refl
get_or-replicate (suc n) zero = refl
get_or-replicate (suc n) (suc u) = get_or-replicate n u

-- A new graph has its vertices and no edge.
pub create_graph-IsGraph :
    (V : ℕ) → IsGraph (create_graph V) × ((u v : ℕ) → ¬ HasEdge (create_graph V) u v)
unfolding create_graph
create_graph-IsGraph V =
    (record { sized = length-replicate V []; closed = λ u v h. absurd (none u v h) }, none)
  where
    none : (u v : ℕ) → ¬ HasEdge (create_graph V) u v
    none u v h = rw (get_or-replicate V u) at h

module _ (g : Graph) (i j : ℕ) (v : IsGraph g) (hi : i < g.V) (hj : j < g.V) where
  abbrev with_edge : Graph
  with_edge = record g { list = set g.list i (j ∷ targets g i) }

  HasEdge-with_edge : (u w : ℕ) → HasEdge with_edge u w ↔ (HasEdge g u w ⊎ ((u ≡ i) × (w ≡ j)))
  HasEdge-with_edge u w = elim (ℕ_discrete i u) [
    | yes e ↦ ground (arith, get_or-set g.list i u (j ∷ targets g i) [] (omega (arith, v.sized)), e)
    | no n ↦ ground (arith, get_or-set g.list i u (j ∷ targets g i) [] (omega (arith, v.sized)), n)
  ]

  -- add_edge between two vertices of a well-formed graph succeeds, keeps it well-formed, and adds
  -- that edge and no other.
  pub add_edge_lem :
      (g' : Graph) × (add_edge g i j ≡ ok g')
      × IsGraph g'
      × (g'.V ≡ g.V)
      × ((u w : ℕ) → HasEdge g' u w ↔ (HasEdge g u w ⊎ ((u ≡ i) × (w ≡ j))))
  unfolding add_edge
  add_edge_lem =
      let lt : i < length g.list = omega (arith, v.sized) in
      (
        with_edge,
        rw (load-targets g i lt, store_lem g.list i (j ∷ targets g i) lt),
        record {
          sized = length-set g.list i (j ∷ targets g i) ∙ v.sized;
          closed = λ u w h. ground (arith, (HasEdge-with_edge u w).0 h, v.closed u w);
        },
        refl,
        HasEdge-with_edge,
      )
