-- ===== src/Server/Input/Edges.antt =====
-- `read_graph` of final-project/solution/source/server.c builds the graph of its file.
use cse344_assignments.Base.{
  ℕ, zero, suc, ◌+◌, ◌≤◌, true, leb, ◌<◌, ◌≡◌, ◌≢◌, refl, sym, ap, ◌∙◌, subst, ◌⊎◌, ◌↔◌, inl, inr,
  List, [], ◌∷◌, ◌++◌, ==-false, All, length, length-append, ok, ◌>>=◌, arith,
}
use mathlib.Core.List.{append-nil}
use cse344_assignments.Libc.{pos, int_max, decimal}
use cse344_assignments.Server.Graph.{Graph, create_graph}
use cse344_assignments.Server.Graph.Laws.{HasEdge, IsGraph, create_graph-IsGraph, add_edge_lem}
use cse344_assignments.Server.Cache.{create_cache}
use cse344_assignments.Server.Input.{
  newline, tab_delimiter, numbers, skip_newlines, token_of, after_token, add_line, add_lines,
  read_graph,
}
use cse344_assignments.Server.Input.Lines.{
  Line, comment, edge_line, content, IsLine, IsText, Without-content, Without-text, content_first,
  numbers_lem, token_of_lem, after_token_lem,
}
use cse344_assignments.Server.Input.Reading.{
  file, HasLine, largest, no_comment, InRange, largest_bounds, find_V_lem,
}

-- The edges of `g`, and those of the lines.
abbrev pub HasAll : Graph → List Line → Graph → Type 0
HasAll g ls g' = (u w : ℕ) → HasEdge g' u w ↔ (HasEdge g u w ⊎ HasLine u w ls)

-- One line adds its edge.
add_line_lem :
    (g : Graph) (l : Line)
    → IsGraph g
    → IsLine l
    → InRange g.V l
    → (g' : Graph) × (add_line g (content l) ≡ ok g')
      × IsGraph g'
      × (g'.V ≡ g.V)
      × HasAll g (l ∷ []) g'
unfolding add_line
add_line_lem g (comment text) v h r = (g, refl, v, refl, λ u w. (inl, old u w))
  where
    old : (u w : ℕ) → HasEdge g u w ⊎ ⊥ → HasEdge g u w
    old u w (inl e) = e
    old u w (inr e) = absurd e
add_line_lem g (edge_line i j) v h r =
    let (g', e, v', same, edges) = add_edge_lem g i j v r.0 r.1 in
    let read : numbers (decimal i ++ tab_delimiter ∷ decimal j) ≡ ok (pos i, pos j) =
      ap (λ t. numbers (decimal i ++ tab_delimiter ∷ t)) (sym (append-nil (decimal j)))
      ∙ numbers_lem i j [] (omega arith) (omega arith) refl in
    (
      g',
      rw (no_comment i (tab_delimiter ∷ decimal j), read) e,
      v',
      same,
      λ u w. (λ h. there u w ((edges u w).0 h), λ h. (edges u w).1 (back u w h)),
    )
  where
    there :
        (u w : ℕ)
        → HasEdge g u w ⊎ ((u ≡ i) × (w ≡ j))
        → HasEdge g u w ⊎ HasLine u w (edge_line i j ∷ [])
    there u w (inl e) = inl e
    there u w (inr e) = inr (inl e)

    back :
        (u w : ℕ)
        → HasEdge g u w ⊎ HasLine u w (edge_line i j ∷ [])
        → HasEdge g u w ⊎ ((u ≡ i) × (w ≡ j))
    back u w (inl e) = inl e
    back u w (inr (inl e)) = inr e
    back u w (inr (inr e)) = absurd e

skip_first :
    (c : ℕ) (text p : List ℕ) → p ≡ c ∷ text → c ≢ newline → c ≢ 0 → skip_newlines p ≡ c ∷ text
unfolding skip_newlines
skip_first c text p e ne nz = ap skip_newlines e ∙ rw (==-false c newline ne, ==-false c 0 nz) refl

add_step :
    (fuel : ℕ) (g : Graph) (c : ℕ) (p text : List ℕ)
    → p ≡ c ∷ text
    → c ≢ newline
    → c ≢ 0
    → add_lines (suc fuel) g p
      ≡ (add_line g (token_of p) >>= λ g'. add_lines fuel g' (after_token p))
unfolding add_lines
add_step fuel g c p text e ne nz =
    rw (skip_first c text p e ne nz, add_lines)
      (ap (λ p. add_line g (token_of p) >>= λ g'. add_lines fuel g' (after_token p)) (sym e))

HasLine-first : (u w : ℕ) (l : Line) (ls : List Line) → HasLine u w (l ∷ []) → HasLine u w (l ∷ ls)
HasLine-first u w (comment text) ls h = absurd h
HasLine-first u w (edge_line i j) ls (inl e) = inl e
HasLine-first u w (edge_line i j) ls (inr e) = absurd e

HasLine-rest : (u w : ℕ) (l : Line) (ls : List Line) → HasLine u w ls → HasLine u w (l ∷ ls)
HasLine-rest u w (comment text) ls h = h
HasLine-rest u w (edge_line i j) ls h = inr h

HasLine-cases :
    (u w : ℕ) (l : Line) (ls : List Line)
    → HasLine u w (l ∷ ls)
    → HasLine u w (l ∷ []) ⊎ HasLine u w ls
HasLine-cases u w (comment text) ls h = inr h
HasLine-cases u w (edge_line i j) ls (inl e) = inl (inl e)
HasLine-cases u w (edge_line i j) ls (inr h) = inr h

HasAll-join :
    (g : Graph) (l : Line) (ls : List Line) (g1 g2 : Graph)
    → HasAll g (l ∷ []) g1
    → HasAll g1 ls g2
    → HasAll g (l ∷ ls) g2
HasAll-join g l ls g1 g2 one rest u w = (λ h. there ((rest u w).0 h), back)
  where
    from : HasEdge g u w ⊎ HasLine u w (l ∷ []) → HasEdge g u w ⊎ HasLine u w (l ∷ ls)
    from (inl e) = inl e
    from (inr h) = inr (HasLine-first u w l ls h)

    there : HasEdge g1 u w ⊎ HasLine u w ls → HasEdge g u w ⊎ HasLine u w (l ∷ ls)
    there (inl e) = from ((one u w).0 e)
    there (inr h) = inr (HasLine-rest u w l ls h)

    line : HasLine u w (l ∷ []) ⊎ HasLine u w ls → HasEdge g2 u w
    line (inl h) = (rest u w).1 (inl ((one u w).1 (inr h)))
    line (inr h) = (rest u w).1 (inr h)

    back : HasEdge g u w ⊎ HasLine u w (l ∷ ls) → HasEdge g2 u w
    back (inl e) = (rest u w).1 (inl ((one u w).1 (inl e)))
    back (inr h) = line (HasLine-cases u w l ls h)

add_lines_lem :
    (fuel : ℕ) (g : Graph) (ls : List Line)
    → IsGraph g
    → All IsLine ls
    → All IsText ls
    → All (InRange g.V) ls
    → length (file ls) < fuel
    → (g' : Graph) × (add_lines fuel g (file ls) ≡ ok g')
      × IsGraph g'
      × (g'.V ≡ g.V)
      × HasAll g ls g'
add_lines_lem zero g ls v h z r le = absurd (omega arith)
add_lines_lem (suc fuel) g [] v h z r le =
    (g, unfold add_lines skip_newlines in refl, v, refl, λ u w. (inl, old u w))
  where
    old : (u w : ℕ) → HasEdge g u w ⊎ ⊥ → HasEdge g u w
    old u w (inl e) = e
    old u w (inr e) = absurd e
add_lines_lem (suc fuel) g (l ∷ ls) v h z r le =
    let (c, text, e, ne, nz) = content_first l in
    let (g1, f, v1, same, edges) = add_line_lem g l v h.0 r.0 in
    let in_range : All (InRange g1.V) ls = subst (λ V. All (InRange V) ls) (sym same) r.1 in
    let (g2, f', v2, same', edges') =
      add_lines_lem fuel g1 ls v1 h.1 z.1 in_range
        (omega (arith, le, length-append (content l) (newline ∷ file ls))) in
    let w = Without-content l h.0 in
    let n = Without-text l z.0 in
    (
      g2,
      add_step fuel g c (file (l ∷ ls)) (text ++ newline ∷ file ls)
            (ap (λ t. t ++ newline ∷ file ls) e) ne nz
          ∙ rw
              (token_of_lem (content l) (file ls) w n, after_token_lem (content l) (file ls) w n, f)
              f',
      v2,
      same' ∙ same,
      HasAll-join g l ls g1 g2 edges edges',
    )

-- For a file of at most INT_MAX bytes, of any comments without a zero byte and edges, each line
-- ended by a newline and each vertex below INT_MAX, with a zero byte behind its bytes, read_graph
-- returns a well-formed graph with one vertex more than the largest that is named, which has an
-- edge exactly if the file has a line for it, and a new cache of that size.
pub read_graph-file :
    (ls : List Line)
    → All IsLine ls
    → All IsText ls
    → length (file ls) ≤ int_max
    → (g : Graph) × (read_graph (file ls) ≡ ok (g, create_cache g.V))
      × IsGraph g
      × (g.V ≡ largest 0 ls + 1)
      × ((u w : ℕ) → HasEdge g u w ↔ HasLine u w ls)
unfolding read_graph create_graph
read_graph-file ls h z short =
    let within : leb (length (file ls)) int_max ≡ true = ground (arith, short) in
    let (le, small, in_range) = largest_bounds 0 ls h (omega arith) in
    let (empty, none) = create_graph-IsGraph (largest 0 ls + 1) in
    let (g, e, v, same, edges) =
      add_lines_lem (length (file ls) + 1) (create_graph (largest 0 ls + 1)) ls empty h z in_range
        (omega arith) in
    (
      g,
      rw (within, find_V_lem ls h z, e) (ap (λ V. ok (g, create_cache V)) (sym same)),
      v,
      same,
      λ u w. (λ k. there u w (none u w) ((edges u w).0 k), λ k. (edges u w).1 (inr k)),
    )
  where
    there :
        (u w : ℕ)
        → ¬ HasEdge (create_graph (largest 0 ls + 1)) u w
        → HasEdge (create_graph (largest 0 ls + 1)) u w ⊎ HasLine u w ls
        → HasLine u w ls
    there u w no_edge (inl e) = absurd (no_edge e)
    there u w no_edge (inr k) = k
