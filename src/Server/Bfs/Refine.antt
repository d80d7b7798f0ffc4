-- ===== src/Server/Bfs/Refine.antt =====
-- The queues of `BFS` hold the lists of `Explore`: paths, and one turn of the inner loop.
use cse344_assignments.Base.{
  ℕ, suc, ◌^◌, ◌≤◌, ◌<◌, ◌≡◌, inl, inr, refl, sym, ap, ◌∙◌, subst, true, List, [], ◌∷◌, ◌++◌, ◌==◌,
  length, get_or, length-append, Bool-cases, ==_iff, arith, dec_lt, ok, err, ok-injective,
  >>=-eq-ok, load, load-get_or, load_total, out_of_bounds,
}
use mathlib.Core.List.{reverse, reverse-cons, append-nil}
use cse344_assignments.Server.Queue.{Queue, create_queue, enqueue, copy}
use cse344_assignments.Server.Queue.Inv.{IsQueue, length-line}
use cse344_assignments.Server.Queue.Enqueue.{grown}
use cse344_assignments.Server.Queue.Doubling.{IsDoubled, enqueue-eq-ok, enqueue_returns}
use cse344_assignments.Server.Queue.Copy.{copy_lem, copy_overrun}
use cse344_assignments.Server.Bfs.{Search, offer}
use cse344_assignments.Server.Bfs.Explore.{extend}

-- The queue of a path holds its vertices, the oldest first.
pub record IsPath (q : Queue ℕ) (p : List ℕ) : Type 0 where
  pub holds : IsQueue q (reverse p)
  pub doubled : IsDoubled q.cap
  pub short : length p ≤ 16 → q.cap ≡ 16

abbrev pub ArePaths : List (Queue ℕ) → List (List ℕ) → Type 0
ArePaths [] [] = Unit
ArePaths (q ∷ qs) (p ∷ ps) = IsPath q p × ArePaths qs ps
ArePaths qs ps = ⊥

pub record IsPending (q : Queue (Queue ℕ)) (pending : List (List ℕ)) : Type 0 where
  pub items : List (Queue ℕ)
  pub holds : IsQueue q items
  pub doubled : IsDoubled q.cap
  pub each : ArePaths items pending

ArePaths-append :
    (qs : List (Queue ℕ)) (ps : List (List ℕ)) (q : Queue ℕ) (p : List ℕ)
    → ArePaths qs ps
    → IsPath q p
    → ArePaths (qs ++ q ∷ []) (ps ++ p ∷ [])
ArePaths-append [] [] q p h k = (k, tt)
ArePaths-append [] (p' ∷ ps) q p h k = absurd h
ArePaths-append (q' ∷ qs) [] q p h k = absurd h
ArePaths-append (q' ∷ qs) (p' ∷ ps) q p h k = (h.0, ArePaths-append qs ps q p h.1 k)

pub length-ArePaths :
    (qs : List (Queue ℕ)) (ps : List (List ℕ)) → ArePaths qs ps → length qs ≡ length ps
length-ArePaths [] [] h = refl
length-ArePaths [] (p ∷ ps) h = absurd h
length-ArePaths (q ∷ qs) [] h = absurd h
length-ArePaths (q ∷ qs) (p ∷ ps) h = ap suc (length-ArePaths qs ps h.1)

length-reverse : (p : List ℕ) → length (reverse p) ≡ length p
length-reverse [] = refl
length-reverse (v ∷ p) =
    ap length (reverse-cons v p)
    ∙ omega (arith, length-append (reverse p) (v ∷ []), length-reverse p)

-- A copy that returns is a path again, with the same capacity.
pub copied-IsPath :
    (q q' : Queue ℕ) (p : List ℕ) → IsPath q p → copy q (create_queue 16) ≡ ok q' → IsPath q' p
copied-IsPath q q' p h e = elim (dec_lt (length (create_queue {A = ℕ} 16).line) q.cap) [
  | yes over ↦ absurd (ground (arith, copy_overrun q (create_queue 16) (reverse p) over h.holds))
  | no fits ↦
      let (r, f, w, k) = copy_lem q (create_queue 16) (reverse p) (omega arith) h.holds in
      subst (λ x. IsPath x p) (ok-injective (sym f ∙ e))
        (record { holds = w; doubled = rw k h.doubled; short = λ s. k ∙ h.short s })
]

-- The new vertex goes to the end of the path.
pub longer-IsPath :
    (q q' : Queue ℕ) (p : List ℕ) (v : ℕ) → IsPath q p → enqueue q v ≡ ok q' → IsPath q' (v ∷ p)
longer-IsPath q q' p v h e =
    let (w, d, k) = enqueue-eq-ok q (reverse p) v h.doubled h.holds e in
    record {
      holds = subst (IsQueue q') (sym (reverse-cons v p)) w;
      doubled = d;
      short = λ s.
          let room = h.short (omega arith) in
          let size = h.holds.count in
          let l = length-reverse p in unfold grown in (ground (arith, k));
    }

-- A copy and an append of a short path return.
short_returns :
    (q : Queue ℕ) (p : List ℕ) (v : ℕ)
    → IsPath q p
    → length p < 16
    → (c : Queue ℕ) × (copy q (create_queue 16) ≡ ok c) × ((c' : Queue ℕ) × (enqueue c v ≡ ok c'))
short_returns q p v h lt =
    let cap = h.short (omega arith) in
    let (c, e, w, k) =
      copy_lem q (create_queue 16) (reverse p) (omega (arith, length-line ℕ 16)) h.holds in
    (c, e, enqueue_returns c (reverse p) v (rw k h.doubled) w (omega (arith, length-reverse p)))

module _ (path : Queue ℕ) (p : List ℕ) (h : IsPath path p) where
  -- One neighbour: the paths that wait become those of `extend`.
  pub offer-eq-ok :
      (v : ℕ) (s s' : Search) (pending : List (List ℕ))
      → IsPending s.paths pending
      → offer path v s ≡ ok s'
      → (s'.visited ≡ s.visited) × IsPending s'.paths (pending ++ extend s.visited p (v ∷ []))
  unfolding offer
  offer-eq-ok v s s' pending k e =
      let (seen, l, e1) = >>=-eq-ok (load s.visited v) _ e in
      let (at, lt) = load-get_or s.visited v 0 l in
      elim (Bool-cases (seen == 0)) [
        | inr old ↦
            let same : s ≡ s' = ok-injective (rw old at e1) in
            (
              ap (λ (t : Search). t.visited) (sym same),
              rw (at, old, append-nil) (subst (λ (t : Search). IsPending t.paths pending) same k),
            )
        | inl new ↦
            let (c, e2, e3) = >>=-eq-ok (copy path (create_queue 16)) _ (rw new at e1) in
            let (c', e4, e5) = >>=-eq-ok (enqueue c v) _ e3 in
            let (qs, e6, e7) = >>=-eq-ok (enqueue s.paths c') _ e5 in
            let longer = longer-IsPath c c' p v (copied-IsPath path c p h e2) e4 in
            let (w, d, _) = enqueue-eq-ok s.paths k.items c' k.doubled k.holds e6 in
            let same : record s { paths = qs } ≡ s' = ok-injective e7 in
            (
              ap (λ (t : Search). t.visited) (sym same),
              rw (at, new)
                  (subst (λ (t : Search). IsPending t.paths (pending ++ (v ∷ p) ∷ [])) same
                    (record {
                      items = k.items ++ c' ∷ [];
                      holds = w;
                      doubled = d;
                      each = ArePaths-append k.items pending c' (v ∷ p) k.each longer;
                    })),
            )
      ]

  pub offer_returns :
      (v : ℕ) (s : Search) (pending : List (List ℕ))
      → IsPending s.paths pending
      → length pending < 2 ^ 30
      → v < length s.visited
      → (get_or s.visited v 0 ≡ 0 → length p < 16)
      → (s' : Search) × (offer path v s ≡ ok s')
  unfolding offer
  offer_returns v s pending k few lt short =
      let (seen, l) = load_total s.visited v lt in
      let at = (load-get_or s.visited v 0 l).0 in
      elim (Bool-cases (seen == 0)) [
        | inr old ↦ (s, rw (l, old))
        | inl new ↦
            let (c, e2, more) = short_returns path p v h (short (at ∙ (==_iff seen 0).0 new)) in
            let (c', e4) = more in
            let (qs, e6) =
              enqueue_returns s.paths k.items c' k.doubled k.holds
                (omega (arith, length-ArePaths k.items pending k.each)) in
            (record s { paths = qs }, rw (l, new, e2, e4, e6))
      ]

-- For a path of more than 16 vertices, which has outgrown the capacity of a new path, the copy
-- that BFS makes for a vertex of the graph not yet visited writes out of bounds.
pub offer_overrun :
    (path : Queue ℕ) (p : List ℕ) (v : ℕ) (s : Search)
    → IsPath path p
    → 16 < length p
    → v < length s.visited
    → get_or s.visited v 0 ≡ 0
    → offer path v s ≡ err out_of_bounds
unfolding offer
offer_overrun path p v s h long lt un =
    let (seen, l) = load_total s.visited v lt in
    let at = (load-get_or s.visited v 0 l).0 in
    let new : (seen == 0) ≡ true = (==_iff seen 0).1 (sym at ∙ un) in
    let count = h.holds.count in
    let room = h.holds.room in
    let over : length (create_queue {A = ℕ} 16).line < path.cap =
      omega (arith, length-line ℕ 16, length-reverse p) in
    rw (l, new, copy_overrun path (create_queue 16) (reverse p) over h.holds)
