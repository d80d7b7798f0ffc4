-- ===== src/Server/Bfs/Trace.antt =====
-- What one round of the search adds to its lists.
use cse344_assignments.Base.{
  ℕ, ◌+◌, ◌≤◌, ◌<◌, ◌≡◌, ◌≢◌, inl, inr, refl, List, [], ◌∷◌, ◌++◌, ◌==◌, length, get_or, set, All,
  Any, Bool-cases, arith, All-append, All-map, All-Any, ==_iff, get_or-set,
}
use cse344_assignments.Server.Graph.{Graph}
use cse344_assignments.Server.Graph.Laws.{IsGraph}
use cse344_assignments.Server.Bfs.Explore.{Walk, one, step, Marked, extend}

-- The newest vertex of a path.
abbrev pub IsEnd : ℕ → List ℕ → Type 0
IsEnd v [] = ⊥
IsEnd v (u ∷ p) = u ≡ v

-- A path to `v` of at most `n` vertices.
abbrev pub Reaches : ℕ → ℕ → List ℕ → Type 0
Reaches v n p = IsEnd v p × (length p ≤ n)

-- The paths stand in the order of their lengths, which differ by one at most.
abbrev pub Levels : List (List ℕ) → Type 0
Levels [] = Unit
Levels (p ∷ ps) = All (λ q. (length p ≤ length q) × (length q ≤ length p + 1)) ps × Levels ps

module _ (visited p : List ℕ) where
  pub extend-All :
      (P : List ℕ → Type 0) (adj : List ℕ)
      → ((v : ℕ) → Any (λ w. w ≡ v) adj → get_or visited v 0 ≡ 0 → P (v ∷ p))
      → All P (extend visited p adj)
  extend-All P [] f = tt
  extend-All P (v ∷ adj) f = elim (Bool-cases (get_or visited v 0 == 0)) [
    | inl new ↦ rw new (f v (inl refl) (ground arith), extend-All P adj (λ w m. f w (inr m)))
    | inr old ↦ rw old (extend-All P adj (λ w m. f w (inr m)))
  ]

  pub extend-Any :
      (v : ℕ) (adj : List ℕ)
      → Any (λ w. w ≡ v) adj
      → get_or visited v 0 ≡ 0
      → Any (λ q. q ≡ v ∷ p) (extend visited p adj)
  extend-Any v [] m e = elim m [ ]
  extend-Any v (w ∷ adj) (inl h) e = rw (h, (==_iff (get_or visited v 0) 0).1 e) (inl refl)
  extend-Any v (w ∷ adj) (inr m) e = elim (Bool-cases (get_or visited w 0 == 0)) [
    | inl new ↦ rw new (inr (extend-Any v adj m e))
    | inr old ↦ rw old (extend-Any v adj m e)
  ]

pub Levels-append :
    (n : ℕ) (ps qs : List (List ℕ))
    → Levels ps
    → All (λ p. (n ≤ length p) × (length p ≤ n + 1)) ps
    → All (λ q. length q ≡ n + 1) qs
    → Levels (ps ++ qs)
Levels-append n [] [] h k l = tt
Levels-append n [] (q ∷ qs) h k l = (
  All-map (λ r. length r ≡ n + 1) _ (λ r e. omega (arith, l.0)) qs l.1,
  Levels-append n [] qs tt tt l.1,
)
Levels-append n (p ∷ ps) qs h k l = (
  All-append _ ps qs h.0 (All-map (λ r. length r ≡ n + 1) _ (λ r e. omega (arith, k.0)) qs l),
  Levels-append n ps qs h.1 k.1 l,
)

-- The first path is as short as any.
pub first_least :
    (n : ℕ) (p : List ℕ) (ps : List (List ℕ))
    → Levels (p ∷ ps)
    → Any (λ q. length q ≤ n) (p ∷ ps)
    → length p ≤ n
first_least n p ps h (inl le) = le
first_least n p ps h (inr a) = All-Any _ ps h.0 _ (λ q l le. omega arith) a

-- The marks after `visited[u] = TRUE`.
pub unmarked_before :
    (visited : List ℕ) (u v : ℕ)
    → u < length visited
    → get_or (set visited u 1) v 0 ≡ 0
    → (get_or visited v 0 ≡ 0) × (u ≢ v)
unmarked_before visited u v lt e = ground (arith, get_or-set visited u v 1 0 lt)

pub unmarked_after :
    (visited : List ℕ) (u v : ℕ)
    → u < length visited
    → get_or visited v 0 ≡ 0
    → u ≢ v
    → get_or (set visited u 1) v 0 ≡ 0
unmarked_after visited u v lt e n = ground (arith, get_or-set visited u v 1 0 lt)

pub Marked-set :
    (visited : List ℕ) (u v : ℕ)
    → u < length visited
    → Marked visited v
    → Marked (set visited u 1) v
Marked-set visited u v lt m = ground (arith, get_or-set visited u v 1 0 lt)

pub Marked-set_self : (visited : List ℕ) (u : ℕ) → u < length visited → Marked (set visited u 1) u
Marked-set_self visited u lt = ground (arith, get_or-set visited u u 1 0 lt)

-- A walk that starts in the graph stays in it.
pub Walk-lt :
    (g : Graph) (start : ℕ) {q : List ℕ}
    → IsGraph g
    → start < g.V
    → Walk g start q
    → (v : ℕ) → IsEnd v q
    → v < g.V
Walk-lt g start h lt one v e = omega (arith, e)
Walk-lt g start h lt (step {u} {v = w} p s) v e = omega (arith, h.closed u w s, e)
