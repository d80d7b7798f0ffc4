-- ===== src/Server/Bfs/Correct.antt =====
-- What `BFS` of graph.h returns, when it returns, and where it reads or writes out of bounds.
use cse344_assignments.Base.{
  ℕ, ◌+◌, ◌-◌, ◌*◌, ◌^◌, ◌≤◌, ◌<◌, ◌≡◌, ◌≢◌, inl, inr, refl, ap, ◌∙◌, subst, Option, none, some,
  List, [], ◌∷◌, ◌==◌, length, replicate, All, Bool-cases, ==_iff, ==-false, arith, ok, err,
  ok-injective, out_of_bounds, length-replicate, get_or-zeros,
}
use mathlib.Core.List.{reverse}
use native.Mathlib.Nat.{pow-succ'}
use cse344_assignments.Server.Queue.{Queue, int_max, create_queue, enqueue}
use cse344_assignments.Server.Queue.Inv.{IsQueue}
use cse344_assignments.Server.Queue.Enqueue.{grown, enqueue_lem, enqueue-create_queue}
use cse344_assignments.Server.Graph.{Graph, edge}
use cse344_assignments.Server.Graph.Laws.{IsGraph, HasEdge, edge_decides, edge-out_of_bounds}
use cse344_assignments.Server.Bfs.{bfs, rounds, degree}
use cse344_assignments.Server.Bfs.Explore.{
  Walk, one, step, explore, found, missing, unfinished, Outcome,
}
use cse344_assignments.Server.Bfs.Trace.{IsEnd}
use cse344_assignments.Server.Bfs.Shortest.{Inv, Answer, explore-Answer}
use cse344_assignments.Server.Bfs.Trails.{IsTrail}
use cse344_assignments.Server.Bfs.Ends.{total, weight}
use cse344_assignments.Server.Bfs.Refine.{IsPending}
use cse344_assignments.Server.Bfs.Simulate.{Agrees, search-eq-ok, search_returns}

-- The two vertices of a path along one edge.
pair :
    (n u v : ℕ)
    → 0 < n
    → n ≤ int_max
    → (q q' : Queue ℕ) × (enqueue (create_queue n) u ≡ ok q)
      × (enqueue q v ≡ ok q')
      × IsQueue q' (u ∷ v ∷ [])
unfolding grown
pair n u v pos small =
    let (q, e, h, k) = enqueue-create_queue n u pos small in
    let c = h.count in
    let (q', e', h', _) = enqueue_lem q (u ∷ []) v (unfold grown in (ground arith)) h in
    (q, q', e, e', h')

le_of_parts : (b m t w : ℕ) → t ≡ b * m → w ≡ m → 0 < b → w + 0 ≤ t
le_of_parts b m t w e f pos = grind arith

module _ (g : Graph) (start end : ℕ) where
  -- What a result of `BFS` says: the queue holds a shortest walk, or there is no walk.
  abbrev pub IsAnswer : Option (Queue ℕ) → Type 0
  IsAnswer none = (p : List ℕ) → Walk g start p → ¬ IsEnd end p
  IsAnswer (some q) =
      (p : List ℕ) × IsQueue q (reverse p)
      × Walk g start p
      × IsEnd end p
      × ((p' : List ℕ) → Walk g start p' → IsEnd end p' → length p ≤ length p')

  -- The lists that the search begins with.
  Inv-begin : start ≢ end → Inv g start end ((start ∷ []) ∷ []) (replicate g.V 0)
  Inv-begin ne = record {
    sized = length-replicate g.V 0;
    walks = (one, tt);
    levels = (tt, tt);
    begun = inr (inl refl);
    closed = λ u v q m. absurd (m (get_or-zeros g.V u));
    target = get_or-zeros g.V end;
  }

  trails_begin : start < g.V → All (IsTrail g.V (replicate g.V 0)) ((start ∷ []) ∷ [])
  trails_begin lt =
      (record { full = λ e. cc; distinct = (tt, tt); inside = (lt, tt); passed = tt }, tt)

  begin :
      (path : Queue ℕ) × (paths : Queue (Queue ℕ)) × (enqueue (create_queue 16) start ≡ ok path)
      × (enqueue (create_queue 1024) path ≡ ok paths)
      × IsPending paths ((start ∷ []) ∷ [])
  begin =
      let (path, e, h, k) = enqueue-create_queue 16 start (omega arith) (omega arith) in
      let (paths, e', h', k') = enqueue-create_queue 1024 path (omega arith) (omega arith) in
      (
        path,
        paths,
        e,
        e',
        record {
          items = path ∷ [];
          holds = h';
          doubled = (20, rw k' refl);
          each = (record { holds = h; doubled = (26, rw k refl); short = λ _. k }, tt);
        },
      )

  -- From the answer on lists to that of the code.
  IsAnswer-Agrees :
      (r : Option (Queue ℕ)) (o : Outcome) → Agrees r o → Answer g start end o → IsAnswer r
  IsAnswer-Agrees none missing h a = a
  IsAnswer-Agrees (some q) (found p) h a = (p, h, a.0, a.1, a.2)
  IsAnswer-Agrees none (found p) h a = absurd h
  IsAnswer-Agrees none unfinished h a = absurd h
  IsAnswer-Agrees (some q) missing h a = absurd h
  IsAnswer-Agrees (some q) unfinished h a = absurd h

  two_vertices : start ≢ end → {p : List ℕ} → Walk g start p → IsEnd end p → 2 ≤ length p
  two_vertices ne one e = absurd (ne e)
  two_vertices ne (step w edge) e = omega arith

  -- `start` and `end` along one edge are a shortest walk.
  IsAnswer-pair :
      (q : Queue ℕ)
      → start ≢ end
      → HasEdge g start end
      → IsQueue q (start ∷ end ∷ [])
      → IsAnswer (some q)
  IsAnswer-pair q ne edge h =
      (end ∷ start ∷ [], h, step one edge, refl, λ p w e. two_vertices ne w e)

  -- Whenever BFS returns on a well-formed graph of at most 2^31 - 1 vertices and a source in it, a
  -- queue that it returns holds a shortest walk from the source to the target, and it returns NULL
  -- only if no walk exists.
  pub bfs_correct :
      (r : Option (Queue ℕ))
      → IsGraph g
      → start < g.V
      → g.V ≤ int_max
      → bfs g start end ≡ ok r
      → IsAnswer r
  unfolding bfs
  bfs_correct r w lt small e = elim (Bool-cases (start == end)) [
    | inl same ↦
        let (q, e1, h, k) = enqueue-create_queue g.V start (omega arith) small in
        subst IsAnswer (ok-injective (rw (same, e1) at e))
          (start ∷ [], h, one, (==_iff start end).0 same, λ p v x. Walk_pos v)
    | inr differ ↦
        let ne : start ≢ end = λ x. cc (differ, (==_iff start end).1 x) in
        let (b, e1, near) = edge_decides g start end (omega (arith, w.sized)) in
        let (q, q', e2, e3, h) = pair g.V start end (omega arith) small in
        let (path, paths, e4, e5, k) = begin in
        elim (Bool-cases b) [
          | inl found_edge ↦
              subst IsAnswer (ok-injective (rw (differ, e1, found_edge, e2, e3) at e))
                (IsAnswer-pair q' ne (near.0 found_edge) h)
          | inr far ↦
              IsAnswer-Agrees r (explore g end (rounds g) ((start ∷ []) ∷ []) (replicate g.V 0))
                (search-eq-ok g end (rounds g) (record { paths = paths; visited = replicate g.V 0 })
                  ((start ∷ []) ∷ []) r k (rw (differ, e1, far, e4, e5) at e))
                (explore-Answer g start end (rounds g) _ _ w lt (Inv-begin ne))
        ]
  ]
    where
      Walk_pos : {p : List ℕ} → Walk g start p → 1 ≤ length p
      Walk_pos one = omega arith
      Walk_pos (step v x) = omega arith

  -- The first path weighs less than the rounds that are given.
  total_begin : start < g.V → total g ((start ∷ []) ∷ []) ≤ (degree g.list + 1) ^ g.V
  unfolding total
  total_begin lt =
      let b = degree g.list + 1 in
      let k = g.V - 1 in
      let power : b ^ g.V ≡ b * b ^ k = ap (λ n. b ^ n) (omega arith) ∙ pow-succ' b k in
      let first : weight g (start ∷ []) ≡ b ^ k = refl in
      le_of_parts b (b ^ k) (b ^ g.V) (weight g (start ∷ [])) power first (omega arith)

  -- On a well-formed graph of at most 16 vertices with (degree + 1)^V at most 2^30, BFS from a
  -- vertex of the graph returns: it makes no access out of bounds and its loop ends.
  pub bfs_returns :
      IsGraph g
      → start < g.V
      → g.V ≤ 16
      → (degree g.list + 1) ^ g.V ≤ 2 ^ 30
      → (r : Option (Queue ℕ)) × (bfs g start end ≡ ok r)
  unfolding bfs rounds
  bfs_returns w lt small few = elim (Bool-cases (start == end)) [
    | inl same ↦
        let (q, e1, h, k) = enqueue-create_queue g.V start (omega arith) (omega arith) in
        (some q, rw (same, e1))
    | inr differ ↦
        let (b, e1, near) = edge_decides g start end (omega (arith, w.sized)) in
        let (q, q', e2, e3, h) = pair g.V start end (omega arith) (omega arith) in
        let (path, paths, e4, e5, k) = begin in
        elim (Bool-cases b) [
          | inl found_edge ↦ (some q', rw (differ, e1, found_edge, e2, e3))
          | inr far ↦
              let t = total_begin lt in
              let (r, e) =
                search_returns g end w (rounds g)
                  (record { paths = paths; visited = replicate g.V 0 }) ((start ∷ []) ∷ []) small
                  (length-replicate g.V 0) k (trails_begin lt) (omega arith)
                  (unfold rounds in (omega arith)) in
              (r, rw (differ, e1, far, e4, e5) e)
        ]
  ]

  -- A source outside the graph, as the server hands on from a client, is read past the array.
  pub bfs-out_of_bounds : length g.list ≤ start → start ≢ end → bfs g start end ≡ err out_of_bounds
  unfolding bfs
  bfs-out_of_bounds h ne = rw (==-false start end ne, edge-out_of_bounds g start end h)
