-- ===== src/Server/Bfs/Ends.antt =====
-- The search ends: each round takes a path away, and puts in paths that weigh less together.
use cse344_assignments.Base.{
  ℕ, zero, suc, ◌+◌, ◌-◌, ◌*◌, ◌^◌, ◌≤◌, ◌<◌, ◌≡◌, ◌≢◌, inl, inr, refl, ap, ◌∙◌, List, [], ◌∷◌,
  ◌++◌, ◌==◌, length, get_or, set, All, Bool-cases, arith, All-append_right, length-set, dec_lt,
}
use native.Mathlib.Nat.{one-le-pow, pow-succ'}
use cse344_assignments.Server.Graph.{Graph}
use cse344_assignments.Server.Graph.Laws.{targets, IsGraph}
use cse344_assignments.Server.Bfs.{degree}
use cse344_assignments.Server.Bfs.Explore.{extend, explore, unfinished}
use cse344_assignments.Server.Bfs.Trace.{extend-All}
use cse344_assignments.Server.Bfs.Trails.{IsTrail, length-trail, IsTrail-round}

-- No chain is longer than the degree.
length-le-degree : (list : List (List ℕ)) (u : ℕ) → length (get_or list u []) ≤ degree list
unfolding degree
length-le-degree [] u = omega arith
length-le-degree (adj ∷ list) zero = omega arith
length-le-degree (adj ∷ list) (suc u) = omega (arith, length-le-degree list u)

-- In a lemma of its own, for `grind`.
mul_le : (a b c : ℕ) → a ≤ b → a * c ≤ b * c
mul_le a b c h = grind arith

module _ (g : Graph) where
  -- All paths that can still grow from one of this length.
  unfoldable pub weight : List ℕ → ℕ
  weight p = (degree g.list + 1) ^ (g.V - length p)

  pub weight_pos : (p : List ℕ) → 1 ≤ weight p
  unfolding weight
  weight_pos p = one-le-pow (g.V - length p) (degree g.list + 1) (omega arith)

  unfoldable pub total : List (List ℕ) → ℕ
  unfolding weight
  total [] = 0
  total (p ∷ ps) = weight p + total ps

  pub total-append : (ps qs : List (List ℕ)) → total (ps ++ qs) ≡ total ps + total qs
  unfolding total
  total-append [] qs = omega arith
  total-append (p ∷ ps) qs = omega (arith, total-append ps qs)

  pub length-le-total : (ps : List (List ℕ)) → length ps ≤ total ps
  unfolding total
  length-le-total [] = omega arith
  length-le-total (p ∷ ps) = omega (arith, length-le-total ps, weight_pos p)

  total-extend :
      (visited p adj : List ℕ)
      → total (extend visited p adj) ≤ length adj * (degree g.list + 1) ^ (g.V - (length p + 1))
  unfolding total
  total-extend visited p [] = omega arith
  total-extend visited p (v ∷ adj) = elim (Bool-cases (get_or visited v 0 == 0)) [
    | inl new ↦ rw new (omega (arith, total-extend visited p adj, weight-cons v p))
    | inr old ↦ rw old (omega (arith, total-extend visited p adj))
  ]
    where
      weight-cons :
          (v : ℕ) (p : List ℕ) → weight (v ∷ p) ≡ (degree g.list + 1) ^ (g.V - (length p + 1))
      weight-cons v p = ap (λ k. (degree g.list + 1) ^ (g.V - k)) (omega arith)

  -- What one path is replaced by weighs less than it.
  pub extend_light :
      (visited : List ℕ) (u : ℕ) (p : List ℕ)
      → All (IsTrail g.V visited) (extend visited (u ∷ p) (targets g u))
      → length (u ∷ p) ≤ g.V
      → total (extend visited (u ∷ p) (targets g u)) < weight (u ∷ p)
  unfolding total
  extend_light visited u p trails le = elim (dec_lt (length (u ∷ p)) g.V) [
    | yes lt ↦
        let k = g.V - (length (u ∷ p) + 1) in
        let split : g.V - length (u ∷ p) ≡ suc k = omega arith in
        let power : weight (u ∷ p) ≡ (degree g.list + 1) * (degree g.list + 1) ^ k =
          unfold weight in
          (ap (λ n. (degree g.list + 1) ^ n) split ∙ pow-succ' (degree g.list + 1) k) in
        let d = length-le-degree g.list u in
        let some_weight = one-le-pow k (degree g.list + 1) (omega arith) in
        let t = total-extend visited (u ∷ p) (targets g u) in
        let m = mul_le (length (targets g u)) (degree g.list) ((degree g.list + 1) ^ k) d in
        omega (arith, t, m, power, some_weight)
    | no full ↦ none_left (extend visited (u ∷ p) (targets g u)) full trails (longer (targets g u))
  ]
    where
      longer :
          (adj : List ℕ) → All (λ q. length q ≡ suc (length (u ∷ p))) (extend visited (u ∷ p) adj)
      longer adj = extend-All visited (u ∷ p) _ adj (λ v m un. refl)

      none_left :
          (qs : List (List ℕ))
          → ¬ (length (u ∷ p) < g.V)
          → All (IsTrail g.V visited) qs
          → All (λ q. length q ≡ suc (length (u ∷ p))) qs
          → total qs < weight (u ∷ p)
      none_left [] f t l = weight_pos (u ∷ p)
      none_left (q ∷ qs) f t l = absurd (omega (arith, length-trail g.V visited q t.0, l.0, f))

  -- With a round for each unit of weight the search comes to an answer.
  pub explore_ends :
      (w : IsGraph g) (end n : ℕ) (pending : List (List ℕ)) (visited : List ℕ)
      → length visited ≡ g.V
      → All (IsTrail g.V visited) pending
      → total pending < n
      → explore g end n pending visited ≢ unfinished
  unfolding explore total
  explore_ends w end zero pending visited size trails lt = absurd (omega arith)
  explore_ends w end (suc n) [] visited size trails lt = λ e. cc
  explore_ends w end (suc n) ([] ∷ rest) visited size trails lt = absurd (trails.0.full refl)
  explore_ends w end (suc n) ((u ∷ p) ∷ rest) visited size trails lt =
      let marked = set visited u 1 in
      let added = extend marked (u ∷ p) (targets g u) in
      let trails' = IsTrail-round g w visited u p size rest trails in
      let light =
        extend_light marked u p (All-append_right _ rest added trails')
          (length-trail g.V visited (u ∷ p) trails.0) in
      let ih =
        explore_ends w end n (rest ++ added) marked (length-set visited u 1 ∙ size) trails'
          (omega (arith, total-append rest added, light)) in
      elim (Bool-cases (u == end)) [ inl same ↦ rw same (λ e. cc) | inr other ↦ rw other ih ]
