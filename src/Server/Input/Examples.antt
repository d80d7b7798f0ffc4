-- ===== src/Server/Input/Examples.antt =====
-- The theorems on the input file at a small graph.
use cse344_assignments.Base.{ℕ, ◌+◌, ◌≡◌, ◌↔◌, List, [], ◌∷◌, ◌++◌, ok, err, out_of_bounds, arith}
use cse344_assignments.Libc.{decimal}
use cse344_assignments.Server.Graph.{Graph}
use cse344_assignments.Server.Graph.Laws.{HasEdge, IsGraph}
use cse344_assignments.Server.Cache.{create_cache}
use cse344_assignments.Server.Input.{read_graph, find_V}
use cse344_assignments.Server.Input.Lines.{Line, comment, edge_line, content}
use cse344_assignments.Server.Input.Reading.{file, HasLine, largest, find_V_unended}
use cse344_assignments.Server.Input.Edges.{read_graph-file}

-- "# to", "0\t10", "10\t2".
abbrev lines : List Line
lines = comment (b' ' ∷ b't' ∷ b'o' ∷ []) ∷ edge_line 0 10 ∷ edge_line 10 2 ∷ []

read_graph-file_example :
    (g : Graph) × (read_graph (file lines) ≡ ok (g, create_cache g.V))
    × IsGraph g
    × (g.V ≡ largest 0 lines + 1)
    × ((u w : ℕ) → HasEdge g u w ↔ HasLine u w lines)
unfolding decimal
read_graph-file_example =
    read_graph-file lines
      (
        (
          (λ e. absurd (omega arith)),
          ((λ e. absurd (omega arith)), ((λ e. absurd (omega arith)), tt)),
        ),
        (omega arith, (omega arith, tt)),
      )
      (omega arith) (omega arith)

find_V_unended_example :
    find_V (file (edge_line 0 10 ∷ []) ++ content (edge_line 10 2)) ≡ err out_of_bounds
find_V_unended_example =
    find_V_unended (edge_line 0 10 ∷ []) (edge_line 10 2) (omega arith) (omega arith)
