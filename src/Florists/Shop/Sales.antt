-- ===== src/Florists/Shop/Sales.antt =====
-- What each florist has sold, has in hand and has in its queue is what it was assigned.
use cse344_assignments.Base.{
  ℕ, ◌+◌, ◌≤◌, ◌<◌, ◌≡◌, ◌≢◌, refl, sym, ap, ◌∙◌, subst, Bool, true, false, some, List, [],
  get_elem?, set, ok, ℕ_discrete, get_elem?-set_at, get_elem?-replicate, get_elem?-set_ne, arith,
}
use cse344_assignments.Server.Queue.{Queue, create_queue, int_max}
use cse344_assignments.Server.Queue.Inv.{create_queue-IsQueue}
use cse344_assignments.Florists.Queue.{enqueue, enqueue_lem}
use cse344_assignments.Florists.Shop.Duty.{
  hand, assigned, waiting-ne-closed, IsWorker, passed_on, room, given, took, delivered, roused,
  dozed, gone_home,
}
use cse344_assignments.Florists.Shop.Wakeups.{broadcast_at}
use cse344_assignments.Florists.Shop.{
  Pc, closed, Worker, broadcast, Shop, assign_florists, Step, request, finish, sleep, take, deliver,
  close, Reach, start, later,
}

module _ (chosen : ℕ → ℕ) (clients : ℕ) where
  pub record IsShop (s : Shop) : Type 0 where
    pub bound : s.next ≤ clients
    pub done : s.finished ≡ true → s.next ≡ clients
    pub workers :
        (k : ℕ) (w : Worker)
        → get_elem? s.florists k ≡ some w
        → IsWorker chosen clients s.next s.finished k w

  -- A change of one florist, whatever becomes of the others.
  changed :
      (s : Shop) (k : ℕ) {w : Worker} (w' : Worker) (next : ℕ)
      → get_elem? s.florists k ≡ some w
      → ((j : ℕ) (u : Worker)
          → k ≢ j
          → get_elem? s.florists j ≡ some u
          → IsWorker chosen clients next s.finished j u)
      → IsWorker chosen clients next s.finished k w'
      → (j : ℕ) (u : Worker) → get_elem? (set s.florists k w') j ≡ some u
      → IsWorker chosen clients next s.finished j u
  changed s k {w} w' next at others h j u e = elim (ℕ_discrete k j) [
    | yes same ↦
        let here : some w' ≡ some u =
          sym (get_elem?-set_at s.florists k w' at)
          ∙ subst (λ j. get_elem? (set s.florists k w') j ≡ some u) (sym same) e in
        let eq : w' ≡ u = ground arith in
        subst (λ j. IsWorker chosen clients next s.finished j u) same
          (subst (IsWorker chosen clients next s.finished k) eq h)
    | no other ↦ others j u other (sym (get_elem?-set_ne s.florists w' other) ∙ e)
  ]

  start-IsShop :
      (count : ℕ) → 0 < clients → clients ≤ int_max → IsShop (assign_florists count clients)
  unfolding assign_florists
  start-IsShop count pos small = record {
    bound = omega arith;
    done = λ e. cc;
    workers = λ k w at.
        subst (IsWorker chosen clients 0 false k) (get_elem?-replicate count k _ at) (record {
          items = [];
          holds = create_queue-IsQueue clients pos small;
          cap = unfold create_queue in refl;
          sum = unfold assigned hand in refl;
          gone = λ e. absurd (waiting-ne-closed e);
        });
  }

  -- A change of the state and a broadcast.
  roused_all :
      (next : ℕ) (finished : Bool) (ws : List Worker)
      → ((j : ℕ) (u : Worker) → get_elem? ws j ≡ some u → IsWorker chosen clients next finished j u)
      → (j : ℕ) (u : Worker) → get_elem? (broadcast ws) j ≡ some u
      → IsWorker chosen clients next finished j u
  roused_all next finished ws h j u e =
      let (v, at, same) = broadcast_at ws j u e in
      subst (IsWorker chosen clients next finished j) (sym same) (roused chosen clients (h j v at))

  Step-IsShop : {s t : Shop} → Step clients chosen s t → IsShop s → IsShop t
  Step-IsShop {s} (request {w = w} {q} lt at put) v =
      let still_open : s.finished ≢ true = λ e. absurd (omega (arith, v.done e)) in
      record {
        bound = omega arith;
        done = λ e. absurd (still_open e);
        workers =
            roused_all (s.next + 1) s.finished
              (set s.florists (chosen s.next) (record w { queue = q }))
              (changed s (chosen s.next) (record w { queue = q }) (s.next + 1) at
                (λ j u other e. passed_on chosen clients (v.workers j u e) other)
                (given chosen clients (v.workers (chosen s.next) w at) refl still_open lt put));
      }
  Step-IsShop {s} (finish all not_yet) v = record {
    bound = v.bound;
    done = λ e. all;
    workers = roused_all s.next true s.florists (λ k w at.
        let h = v.workers k w at in
        record {
          items = h.items;
          holds = h.holds;
          cap = h.cap;
          sum = h.sum;
          gone = λ e. (refl, (h.gone e).1);
        });
  }
  Step-IsShop {s} (sleep k {w} at here none_left still_open) v = record {
    bound = v.bound;
    done = v.done;
    workers =
        changed s k _ s.next at (λ j u other e. v.workers j u e)
          (dozed chosen clients (v.workers k w at) here);
  }
  Step-IsShop {s} (take k {w} {client} {q} at here got) v = record {
    bound = v.bound;
    done = v.done;
    workers =
        changed s k _ s.next at (λ j u other e. v.workers j u e)
          (took chosen clients (v.workers k w at) here got);
  }
  Step-IsShop {s} (deliver k {w} at here) v = record {
    bound = v.bound;
    done = v.done;
    workers =
        changed s k _ s.next at (λ j u other e. v.workers j u e)
          (delivered chosen clients (v.workers k w at) here);
  }
  Step-IsShop {s} (close k {w} at here end none_left) v = record {
    bound = v.bound;
    done = v.done;
    workers =
        changed s k _ s.next at (λ j u other e. v.workers j u e)
          (gone_home chosen clients (v.workers k w at) here end none_left);
  }

  module _ (pos : 0 < clients) (small : clients ≤ int_max) {count : ℕ} where
    pub Reach-IsShop : {s : Shop} → Reach clients chosen count s → IsShop s
    Reach-IsShop start = start-IsShop count pos small
    Reach-IsShop (later r st) = Step-IsShop st (Reach-IsShop r)

    -- In every reachable state of the shop, with at least one and at most 2^31 - 1 clients, a
    -- florist that has closed has as many sales as clients were assigned to it, and its queue is
    -- empty.
    pub closed_sold_all :
        (s : Shop) (k : ℕ) (w : Worker)
        → Reach clients chosen count s
        → get_elem? s.florists k ≡ some w
        → w.pc ≡ closed
        → (w.total_sale ≡ assigned chosen k clients) × (w.queue.size ≡ 0)
    closed_sold_all s k w r at gone =
        let v = Reach-IsShop r in
        let h = v.workers k w at in
        let (over, none_left) = h.gone gone in
        let all : assigned chosen k s.next ≡ assigned chosen k clients =
          ap (assigned chosen k) (v.done over) in
        (omega (arith, h.sum, none_left, all, hand-closed gone), h.holds.count ∙ none_left)
      where
        hand-closed : {p : Pc} → p ≡ closed → hand p ≡ 0
        hand-closed e = unfold hand in (ap hand e)

    -- In every reachable state of the shop with requests left, with at least one and at most 2^31
    -- - 1 clients, the next request fits into the queue of any florist: the queue is never full.
    pub request_fits :
        (s : Shop) (k : ℕ) (w : Worker)
        → Reach clients chosen count s
        → s.next < clients
        → get_elem? s.florists k ≡ some w
        → (q : Queue ℕ) × (enqueue w.queue s.next ≡ ok q)
    request_fits s k w r lt at =
        let h = (Reach-IsShop r).workers k w at in
        let (q, e, _, _) = enqueue_lem w.queue h.items s.next h.holds (room chosen clients h lt) in
        (q, e)
