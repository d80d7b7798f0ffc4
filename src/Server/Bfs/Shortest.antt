-- ===== src/Server/Bfs/Shortest.antt =====
-- The search on lists finds a shortest walk, and gives up only where there is none.
use cse344_assignments.Base.{
  ℕ, zero, suc, ◌+◌, ◌≤◌, ◌<◌, ◌≡◌, ◌≢◌, ◌⊎◌, inl, inr, refl, ap, ◌∙◌, List, [], ◌∷◌, ◌++◌, length,
  get_or, set, All, Any, arith, All-append, Any-map, Any-append_left, Any-append_right, length-set,
  ℕ_discrete, ==_iff, ==-false,
}
use cse344_assignments.Server.Graph.{Graph}
use cse344_assignments.Server.Graph.Laws.{targets, HasEdge, IsGraph}
use cse344_assignments.Server.Bfs.Explore.{
  Walk, one, step, Marked, extend, explore, Outcome, found, missing, unfinished,
}
use cse344_assignments.Server.Bfs.Trace.{
  IsEnd, Reaches, Levels, extend-All, extend-Any, Levels-append, first_least, unmarked_before,
  unmarked_after, Marked-set, Marked-set_self, Walk-lt,
}

module _ (g : Graph) (start end : ℕ) where
  pub record Inv (pending : List (List ℕ)) (visited : List ℕ) : Type 0 where
    pub sized : length visited ≡ g.V
    pub walks : All (Walk g start) pending
    pub levels : Levels pending
    pub begun : Marked visited start ⊎ Any (λ p. p ≡ start ∷ []) pending
    -- A neighbour of a visited vertex is visited or waits, on a path as short as may be.
    pub closed :
        (u v : ℕ) (q : List ℕ)
        → Marked visited u
        → Walk g start q
        → IsEnd u q
        → HasEdge g u v
        → Marked visited v ⊎ Any (Reaches v (suc (length q))) pending
    pub target : get_or visited end 0 ≡ 0

  -- To a vertex that is not visited no walk is shorter than the paths that wait.
  nearest :
      (pending : List (List ℕ)) (visited : List ℕ)
      → Inv pending visited
      → {q : List ℕ} → Walk g start q
      → (v : ℕ) → IsEnd v q
      → get_or visited v 0 ≡ 0
      → Any (λ r. length r ≤ length q) pending
  nearest pending visited h one v e un = elim h.begun [
    | inl m ↦ absurd (m (ap (λ k. get_or visited k 0) e ∙ un))
    | inr a ↦ Any-map _ _ (λ r same. omega (arith, ap length same)) pending a
  ]
  nearest pending visited h (step {u} {v = w} {p} s edge) v e un =
      elim (ℕ_discrete (get_or visited u 0) 0) [
        | yes before ↦
            Any-map _ _ (λ r le. omega arith) pending (nearest pending visited h s u refl before)
        | no m ↦ elim (h.closed u w (u ∷ p) m s refl edge) [
          | inl marked ↦ absurd (marked (ap (λ k. get_or visited k 0) e ∙ un))
          | inr a ↦ Any-map _ _ (λ r le. le.1) pending a
        ]
      ]

  module _ (rest : List (List ℕ)) (visited : List ℕ) (u : ℕ) (p : List ℕ)
      (h : Inv ((u ∷ p) ∷ rest) visited) where
    abbrev marked : List ℕ
    marked = set visited u 1

    abbrev added : List (List ℕ)
    added = extend marked (u ∷ p) (targets g u)

    least :
        get_or visited u 0 ≡ 0
        → {q : List ℕ} → Walk g start q
        → IsEnd u q
        → length (u ∷ p) ≤ length q
    least un {q} w e =
        first_least (length q) (u ∷ p) rest h.levels (nearest ((u ∷ p) ∷ rest) visited h w u e un)

    closed_round :
        u < g.V
        → (w v : ℕ) (q : List ℕ) → Marked marked w
        → Walk g start q
        → IsEnd w q
        → HasEdge g w v
        → Marked marked v ⊎ Any (Reaches v (suc (length q))) (rest ++ added)
    closed_round lt w v q m s e edge = elim (ℕ_discrete (get_or marked v 0) 0) [
      | no yes_marked ↦ inl yes_marked
      | yes un ↦
          let (before, ne) = unmarked_before visited u v (omega (arith, h.sized)) un in
          elim (ℕ_discrete (get_or visited w 0) 0) [
            | no old ↦ elim (h.closed w v q old s e edge) [
              | inl marked_v ↦ absurd (marked_v before)
              | inr (inl here) ↦ absurd (ne here.0)
              | inr (inr a) ↦ inr (Any-append_left _ rest added a)
            ]
            | yes new ↦ elim (ℕ_discrete u w) [
              | no other ↦
                  absurd (m (unmarked_after visited u w (omega (arith, h.sized)) new other))
              | yes same ↦ inr (
                  Any-append_right _ rest added (
                    Any-map _ _
                      (λ r is.
                        let l = least (rw same new) s (rw same e) in
                        ground (arith, ap length is, is, l))
                      added (extend-Any marked (u ∷ p) v (targets g u) (rw same edge) un)))
            ]
          ]
    ]

    round-Inv : u < g.V → u ≢ end → Inv (rest ++ added) marked
    round-Inv lt other = record {
      sized = length-set visited u 1 ∙ h.sized;
      walks =
          All-append _ rest added h.walks.1
            (extend-All marked (u ∷ p) (Walk g start) (targets g u) (λ v m un. step h.walks.0 m));
      levels = Levels-append (length (u ∷ p)) rest added h.levels.1 h.levels.0 (
          extend-All marked (u ∷ p) (λ r. length r ≡ length (u ∷ p) + 1) (targets g u)
            (λ v m un. omega arith));
      begun = elim h.begun [
        | inl m ↦ inl (Marked-set visited u start (omega (arith, h.sized)) m)
        | inr (inl is) ↦
            inl (ground (arith, Marked-set_self visited u (omega (arith, h.sized)), is))
        | inr (inr a) ↦ inr (Any-append_left _ rest added a)
      ];
      closed = closed_round lt;
      target = unmarked_after visited u end (omega (arith, h.sized)) h.target other;
    }

  -- What the search answers.
  abbrev pub Answer : Outcome → Type 0
  Answer (found p) =
      Walk g start p
      × IsEnd end p
      × ((q : List ℕ) → Walk g start q → IsEnd end q → length p ≤ length q)
  Answer missing = (q : List ℕ) → Walk g start q → ¬ IsEnd end q
  Answer unfinished = Unit

  pub explore-Answer :
      (n : ℕ) (pending : List (List ℕ)) (visited : List ℕ)
      → IsGraph g
      → start < g.V
      → Inv pending visited
      → Answer (explore g end n pending visited)
  unfolding explore
  explore-Answer zero pending visited w lt h = tt
  explore-Answer (suc n) [] visited w lt h = λ q s e. nearest [] visited h s end e h.target
  explore-Answer (suc n) ([] ∷ rest) visited w lt h = tt
  explore-Answer (suc n) ((u ∷ p) ∷ rest) visited w lt h = elim (ℕ_discrete u end) [
    | yes same ↦
        rw ((==_iff u end).1 same)
          (h.walks.0, same, λ q s e. least rest visited u p h (rw same h.target) s (rw same e))
    | no other ↦ rw (==-false u end other) (
        explore-Answer n (rest ++ added rest visited u p h) (set visited u 1) w lt
          (round-Inv rest visited u p h (Walk-lt g start w lt h.walks.0 u refl) other))
  ]
