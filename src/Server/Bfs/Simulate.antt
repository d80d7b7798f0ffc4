-- ===== src/Server/Bfs/Simulate.antt =====
-- The loops of `BFS` do what the search on lists does, and run without a fault on small graphs.
use cse344_assignments.Base.{
  ℕ, zero, suc, ◌^◌, ◌≤◌, ◌<◌, ◌≡◌, inl, inr, refl, sym, ap, ◌∙◌, subst, true, false, Option, none,
  some, List, [], ◌∷◌, ◌++◌, ◌==◌, length, get_or, length-append, set, All, All-append_right,
  All-members, Bool-cases, arith, ok, ok-injective, >>=-eq-ok, load, store, load-get_or,
  store-eq-ok, store_lem, length-set,
}
use mathlib.Core.List.{reverse, reverse-cons, append-nil, append_assoc}
use cse344_assignments.Server.Queue.{Queue, is_empty, dequeue, back}
use cse344_assignments.Server.Queue.Inv.{
  IsQueue, dequeue_lem, dequeued, dequeued-IsQueue, back_lem, back_empty, is_empty_lem,
}
use cse344_assignments.Server.Graph.{Graph}
use cse344_assignments.Server.Graph.Laws.{targets, load-targets, IsGraph}
use cse344_assignments.Server.Bfs.{Search, offer, scan, search}
use cse344_assignments.Server.Bfs.Explore.{extend, explore, Outcome, found, missing}
use cse344_assignments.Server.Bfs.Trails.{IsTrail, length-trail, IsTrail-round, new-IsTrail}
use cse344_assignments.Server.Bfs.Ends.{total, total-append, extend_light, length-le-total}
use cse344_assignments.Server.Bfs.Refine.{IsPath, ArePaths, IsPending, offer-eq-ok, offer_returns}

extend-cons :
    (visited p : List ℕ) (v : ℕ) (adj : List ℕ)
    → extend visited p (v ∷ adj) ≡ extend visited p (v ∷ []) ++ extend visited p adj
extend-cons visited p v adj = elim (Bool-cases (get_or visited v 0 == 0)) [
  | inl new ↦ rw new
  | inr old ↦ rw old
]

module _ (path : Queue ℕ) (p : List ℕ) (h : IsPath path p) where
  -- The whole inner loop.
  pub scan-eq-ok :
      (adj : List ℕ) (s s' : Search) (pending : List (List ℕ))
      → IsPending s.paths pending
      → scan path adj s ≡ ok s'
      → (s'.visited ≡ s.visited) × IsPending s'.paths (pending ++ extend s.visited p adj)
  unfolding scan
  scan-eq-ok [] s s' pending k e =
      let same : s ≡ s' = ok-injective e in
      (
        ap (λ (t : Search). t.visited) (sym same),
        rw append-nil (subst (λ (t : Search). IsPending t.paths pending) same k),
      )
  scan-eq-ok (v ∷ adj) s s' pending k e =
      let (t, e1, e2) = >>=-eq-ok (offer path v s) _ e in
      let (m1, k1) = offer-eq-ok path p h v s t pending k e1 in
      let (m2, k2) = scan-eq-ok adj t s' (pending ++ extend s.visited p (v ∷ [])) k1 e2 in
      (
        m2 ∙ m1,
        rw extend-cons (
            rw (← append_assoc) (
              subst
                (λ vis.
                  IsPending s'.paths ((pending ++ extend s.visited p (v ∷ [])) ++ extend vis p adj))
                m1 k2)),
      )

  pub scan_returns :
      (adj : List ℕ) (s : Search) (pending : List (List ℕ))
      → IsPending s.paths pending
      → length (pending ++ extend s.visited p adj) < 2 ^ 30
      → All (λ v. (v < length s.visited) × (get_or s.visited v 0 ≡ 0 → length p < 16)) adj
      → (s' : Search) × (scan path adj s ≡ ok s')
  unfolding scan
  scan_returns [] s pending k few in_range = (s, refl)
  scan_returns (v ∷ adj) s pending k few in_range =
      let new = extend s.visited p (v ∷ []) in
      let l1 = length-append {0} pending (extend s.visited p (v ∷ adj)) in
      let (t, e1) = offer_returns path p h v s pending k (omega arith) in_range.0.0 in_range.0.1 in
      let (m1, k1) = offer-eq-ok path p h v s t pending k e1 in
      let few' : length ((pending ++ new) ++ extend t.visited p adj) < 2 ^ 30 =
        rw (m1, append_assoc, ← extend-cons) few in
      let (s', e2) = scan_returns adj t (pending ++ new) k1 few' (rw m1 in_range.1) in
      (s', rw (e1, e2))

-- The result of the queues against that of the lists.
abbrev pub Agrees : Option (Queue ℕ) → Outcome → Type 0
Agrees none missing = Unit
Agrees (some q) (found p) = IsQueue q (reverse p)
Agrees r o = ⊥

ArePaths-nil : (qs : List (Queue ℕ)) → ArePaths qs [] → qs ≡ []
ArePaths-nil [] h = refl
ArePaths-nil (q ∷ qs) h = absurd h

ArePaths-cons :
    (qs : List (Queue ℕ)) (p : List ℕ) (ps : List (List ℕ))
    → ArePaths qs (p ∷ ps)
    → (q : Queue ℕ) × (qs' : List (Queue ℕ)) × (qs ≡ q ∷ qs') × IsPath q p × ArePaths qs' ps
ArePaths-cons [] p ps h = absurd h
ArePaths-cons (q ∷ qs) p ps h = (q, qs, refl, h.0, h.1)

-- The first path of a queue that is not empty, and the queue of the others.
first-IsPath :
    (paths : Queue (Queue ℕ)) (p : List ℕ) (ps : List (List ℕ))
    → IsPending paths (p ∷ ps)
    → (q : Queue ℕ) × (is_empty paths ≡ false)
      × (dequeue paths ≡ ok (q, dequeued paths))
      × IsPath q p
      × IsPending (dequeued paths) ps
unfolding dequeued
first-IsPath paths p ps k =
    let (q, qs, e, h, t) = ArePaths-cons k.items p ps k.each in
    let v : IsQueue paths (q ∷ qs) = subst (IsQueue paths) e k.holds in
    (
      q,
      is_empty_lem paths (q ∷ qs) v ∙ ground arith,
      dequeue_lem paths q qs v,
      h,
      record { items = qs; holds = dequeued-IsQueue paths q qs v; doubled = k.doubled; each = t },
    )

no_path : (paths : Queue (Queue ℕ)) → IsPending paths [] → is_empty paths ≡ true
no_path paths k =
    is_empty_lem paths [] (subst (IsQueue paths) (ArePaths-nil k.items k.each) k.holds)

back-path : (q : Queue ℕ) (u : ℕ) (p : List ℕ) → IsPath q (u ∷ p) → back q ≡ ok u
back-path q u p h = back_lem q (reverse p) u (subst (IsQueue q) (reverse-cons u p) h.holds)

module _ (g : Graph) (end : ℕ) where
  -- A search that returns has the answer of the search on lists.
  pub search-eq-ok :
      (n : ℕ) (s : Search) (pending : List (List ℕ)) (r : Option (Queue ℕ))
      → IsPending s.paths pending
      → search g end n s ≡ ok r
      → Agrees r (explore g end n pending s.visited)
  unfolding search explore
  search-eq-ok zero s pending r k e = cc
  search-eq-ok (suc n) s [] r k e =
      subst (λ r. Agrees r missing) (ok-injective (rw (no_path s.paths k) at e)) tt
  search-eq-ok (suc n) s ([] ∷ ps) r k e =
      let (q, full, d, h, t) = first-IsPath s.paths [] ps k in
      absurd (ground (arith, e, full, d, back_empty q h.holds))
  search-eq-ok (suc n) s ((u ∷ p) ∷ ps) r k e =
      let (q, full, d, h, t) = first-IsPath s.paths (u ∷ p) ps k in
      let last = back-path q u p h in
      elim (Bool-cases (u == end)) [
        | inl same ↦ rw same (
            subst (λ r. Agrees r (found (u ∷ p))) (ok-injective (rw (full, d, last, same) at e))
              h.holds)
        | inr other ↦
            let (adj, e1, e2) = >>=-eq-ok (load g.list u) _ (rw (full, d, last, other) at e) in
            let (visited, e3, e4) = >>=-eq-ok (store s.visited u 1) _ e2 in
            let (lt, marks) = store-eq-ok s.visited u 1 e3 in
            let (s', e5, e6) =
              >>=-eq-ok (scan q adj (record { paths = dequeued s.paths; visited = visited })) _
                e4 in
            let (m, k') =
              scan-eq-ok q (u ∷ p) h adj (record { paths = dequeued s.paths; visited = visited }) s'
                ps t e5 in
            rw (other, ← marks, (load-get_or g.list u [] e1).0)
              (subst (λ w. Agrees r (explore g end n (ps ++ extend visited (u ∷ p) adj) w)) m
                (search-eq-ok n s' (ps ++ extend visited (u ∷ p) adj) r k' e6))
      ]

  -- On a graph of 16 vertices or fewer, with not too many paths, the loop runs without a fault.
  pub search_returns :
      (w : IsGraph g) (n : ℕ) (s : Search) (pending : List (List ℕ))
      → g.V ≤ 16
      → length s.visited ≡ g.V
      → IsPending s.paths pending
      → All (IsTrail g.V s.visited) pending
      → total g pending ≤ 2 ^ 30
      → total g pending < n
      → (r : Option (Queue ℕ)) × (search g end n s ≡ ok r)
  unfolding search total
  search_returns w zero s pending small size k trails few lt = absurd (omega arith)
  search_returns w (suc n) s [] small size k trails few lt = (none, rw (no_path s.paths k))
  search_returns w (suc n) s ([] ∷ ps) small size k trails few lt = absurd (trails.0.full refl)
  search_returns w (suc n) s ((u ∷ p) ∷ ps) small size k trails few lt =
      let (q, full, d, h, t) = first-IsPath s.paths (u ∷ p) ps k in
      let last = back-path q u p h in
      elim (Bool-cases (u == end)) [
        | inl same ↦ (some q, rw (full, d, last, same))
        | inr other ↦
            let marked = set s.visited u 1 in
            let added = extend marked (u ∷ p) (targets g u) in
            let in_range : u < length s.visited = omega (arith, size, trails.0.inside.0) in
            let trails' = IsTrail-round g w s.visited u p size ps trails in
            let light =
              extend_light g marked u p (All-append_right _ ps added trails')
                (length-trail g.V s.visited (u ∷ p) trails.0) in
            let sum = total-append g ps added in
            let count = length-le-total g (ps ++ added) in
            let near : All
                (λ v. (v < length marked) × (get_or marked v 0 ≡ 0 → length (u ∷ p) < 16))
                (targets g u) =
              All-members _ (targets g u) (λ v edge. (
                omega (arith, w.closed u v edge, length-set s.visited u 1, size),
                λ un. omega (
                  arith,
                  length-trail g.V marked (v ∷ u ∷ p)
                      (new-IsTrail g w s.visited u p size v trails.0 edge un),
                ),
              )) in
            let (s', e5) =
              scan_returns q (u ∷ p) h (targets g u)
                (record { paths = dequeued s.paths; visited = marked }) ps t (omega arith) near in
            let (m, k') =
              scan-eq-ok q (u ∷ p) h (targets g u)
                (record { paths = dequeued s.paths; visited = marked }) s' ps t e5 in
            let (r, e) =
              search_returns w n s' (ps ++ added) small
                (ap length m ∙ length-set s.visited u 1 ∙ size) k'
                (subst (λ vis. All (IsTrail g.V vis) (ps ++ added)) (sym m) trails') (omega arith)
                (omega arith) in
            (
              r,
              rw
                  (
                    full,
                    d,
                    last,
                    other,
                    load-targets g u (omega (arith, w.sized, size)),
                    store_lem s.visited u 1 in_range,
                    e5,
                  )
                  e,
            )
      ]
