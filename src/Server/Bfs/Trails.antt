-- ===== src/Server/Bfs/Trails.antt =====
-- A path of the search never repeats a vertex, so it is no longer than the graph has vertices.
use cse344_assignments.Base.{
  ℕ, zero, suc, ◌+◌, ◌≤◌, ◌<◌, ◌≡◌, ◌≢◌, refl, sym, ap, ◌∙◌, List, [], ◌∷◌, ◌++◌, ◌==◌,
  if◌then◌else◌, length, get_or, get_or-set, replicate, set, All, arith, All-append, All-map,
  length-set, length-replicate, get_or-zeros,
}
use mathlib.Core.List.{tail}
use cse344_assignments.Server.Graph.{Graph}
use cse344_assignments.Server.Graph.Laws.{targets, HasEdge, IsGraph}
use cse344_assignments.Server.Bfs.Explore.{Marked, extend}
use cse344_assignments.Server.Bfs.Trace.{extend-All, Marked-set, Marked-set_self}

abbrev Distinct : List ℕ → Type 0
Distinct [] = Unit
Distinct (x ∷ xs) = All (λ y. x ≢ y) xs × Distinct xs

-- The flags that are not set.
zeros : List ℕ → ℕ
zeros [] = 0
zeros (x ∷ xs) = if x == 0 then suc (zeros xs) else zeros xs

mark_all : ℕ → List ℕ → List ℕ
mark_all V [] = replicate V 0
mark_all V (x ∷ xs) = set (mark_all V xs) x 1

zeros-set :
    (bs : List ℕ) (i : ℕ) → i < length bs → get_or bs i 0 ≡ 0 → suc (zeros (set bs i 1)) ≡ zeros bs
unfolding zeros
zeros-set [] i h e = elim h [ ]
zeros-set (b ∷ bs) zero h e = ground arith
zeros-set (b ∷ bs) (suc i) h e = ground (arith, zeros-set bs i (omega arith) e)

zeros-replicate : (n : ℕ) → zeros (replicate n 0) ≡ n
unfolding zeros
zeros-replicate zero = refl
zeros-replicate (suc n) = ap suc (zeros-replicate n)

length-mark_all : (V : ℕ) (xs : List ℕ) → length (mark_all V xs) ≡ V
unfolding mark_all
length-mark_all V [] = length-replicate V 0
length-mark_all V (x ∷ xs) = length-set (mark_all V xs) x 1 ∙ length-mark_all V xs

unmarked :
    (V x : ℕ) (xs : List ℕ)
    → All (λ y. x ≢ y) xs
    → All (λ y. y < V) xs
    → get_or (mark_all V xs) x 0 ≡ 0
unfolding mark_all
unmarked V x [] h k = get_or-zeros V x
unmarked V x (y ∷ xs) h k = ground (
  arith,
  get_or-set (mark_all V xs) y x 1 0 (omega (arith, length-mark_all V xs, k.0)),
  h.0,
  unmarked V x xs h.1 k.1,
)

zeros-mark_all :
    (V : ℕ) (xs : List ℕ)
    → Distinct xs
    → All (λ y. y < V) xs
    → zeros (mark_all V xs) + length xs ≡ V
unfolding mark_all
zeros-mark_all V [] d k = omega (arith, zeros-replicate V)
zeros-mark_all V (x ∷ xs) d k = omega (
  arith,
  zeros-set (mark_all V xs) x (omega (arith, length-mark_all V xs, k.0)) (unmarked V x xs d.0 k.1),
  zeros-mark_all V xs d.1 k.1,
)

-- Distinct vertices are no more than the graph has.
length_le : (V : ℕ) (xs : List ℕ) → Distinct xs → All (λ y. y < V) xs → length xs ≤ V
length_le V xs d k = omega (arith, zeros-mark_all V xs d k)

-- A path that waits: all but its newest vertex are visited.
pub record IsTrail (V : ℕ) (visited : List ℕ) (p : List ℕ) : Type 0 where
  pub full : p ≢ []
  pub distinct : Distinct p
  pub inside : All (λ w. w < V) p
  pub passed : All (Marked visited) (tail p)

pub length-trail : (V : ℕ) (visited p : List ℕ) → IsTrail V visited p → length p ≤ V
length-trail V visited p t = length_le V p t.distinct t.inside

module _ (g : Graph) (w : IsGraph g) (visited : List ℕ) (u : ℕ) (p : List ℕ)
    (size : length visited ≡ g.V) where
  keep-IsTrail : (q : List ℕ) → u < g.V → IsTrail g.V visited q → IsTrail g.V (set visited u 1) q
  keep-IsTrail q lt t = record {
    full = t.full;
    distinct = t.distinct;
    inside = t.inside;
    passed = All-map _ _ (λ x m. Marked-set visited u x (omega (arith, size)) m) (tail q) t.passed;
  }

  pub new-IsTrail :
      (v : ℕ)
      → IsTrail g.V visited (u ∷ p)
      → HasEdge g u v
      → get_or (set visited u 1) v 0 ≡ 0
      → IsTrail g.V (set visited u 1) (v ∷ u ∷ p)
  new-IsTrail v t e un =
      let lt : u < length visited = omega (arith, size, t.inside.0) in
      let old : All (Marked (set visited u 1)) (u ∷ p) = (
        Marked-set_self visited u lt,
        All-map _ _ (λ x m. Marked-set visited u x lt m) p t.passed,
      ) in
      record {
        full = λ e. cc;
        distinct = (
          All-map _ _ (λ x m same. m (ap (λ k. get_or (set visited u 1) k 0) (sym same) ∙ un))
              (u ∷ p) old,
          t.distinct,
        );
        inside = (w.closed u v e, t.inside);
        passed = old;
      }

  pub IsTrail-round :
      (rest : List (List ℕ))
      → All (IsTrail g.V visited) ((u ∷ p) ∷ rest)
      → All (IsTrail g.V (set visited u 1)) (rest ++ extend (set visited u 1) (u ∷ p) (targets g u))
  IsTrail-round rest h =
      All-append _ rest _ (All-map _ _ (λ q t. keep-IsTrail q h.0.inside.0 t) rest h.1) (
        extend-All (set visited u 1) (u ∷ p) (IsTrail g.V (set visited u 1)) (targets g u)
          (λ v e un. new-IsTrail v h.0 e un))
