-- ===== src/Server/Dispatch/Shutdown.antt =====
-- Two handlers of final-project/solution/source/server.c and one client after a signal.
use cse344_assignments.Base.{
  ℕ, zero, suc, ◌≤◌, ◌<◌, ◌≡◌, refl, ap, subst, inl, inr, Bool-cases, false, some, List, set,
  get_elem?-set_at, [], ◌∷◌, get_elem?, ok, err, exited, arith,
}
use cse344_assignments.Server.Queue.{Queue, create_queue, enqueue, dequeue, is_empty}
use cse344_assignments.Server.Queue.Inv.{
  create_queue-IsQueue, dequeue_front, dequeue_empty, is_empty_lem,
}
use cse344_assignments.Server.Queue.Doubling.{IsDoubled, enqueue-eq-ok, enqueue_returns}
use cse344_assignments.Libc.{int_max}
use cse344_assignments.Server.Pool.{Floats, Pool, load, need_resize, take_connection, wake_pooler}
use cse344_assignments.Server.Dispatch.{
  counting, asking, fetching, Server, create_server, accept, forward, wait, proceed, count,
  overload, ask, fetch, interrupt, kill_listener, release, Reach, start, later,
}

-- The first enqueue, and the dequeue that takes it back.
one_client :
    (clientfd : ℕ)
    → (q : Queue ℕ) × (q' : Queue ℕ) × (enqueue (create_queue 1024) clientfd ≡ ok q)
      × (is_empty q ≡ false)
      × (dequeue q ≡ ok (clientfd, q'))
      × (dequeue q' ≡ err exited)
one_client clientfd =
    let v = create_queue-IsQueue {A = ℕ} 1024 (omega arith) (omega arith) in
    let d : IsDoubled (create_queue {A = ℕ} 1024).cap = (20, unfold create_queue in refl) in
    let (q, e) = enqueue_returns (create_queue 1024) [] clientfd d v (omega arith) in
    let (w, d', c) = enqueue-eq-ok (create_queue 1024) [] clientfd d v e in
    let (q', f, w', c') = dequeue_front q clientfd [] w in
    (q, q', e, is_empty_lem q (clientfd ∷ []) w, f, dequeue_empty q' w')

set-set {ℓ} : {A : Type ℓ} (xs : List A) (i : ℕ) (a b : A) → set (set xs i a) i b ≡ set xs i b
set-set [] i a b = refl
set-set (x ∷ xs) zero a b = refl
set-set (x ∷ xs) (suc i) a b = ap (λ t. x ∷ t) (set-set xs i a b)

module _ {F : Type 0} (floats : Floats F) (max_thread min_thread : ℕ) where
  -- A handler gets to its `dequeue`, whatever the load.
  counted :
      {s : Server} (i : ℕ)
      → Reach floats max_thread min_thread s
      → get_elem? s.handlers i ≡ some counting
      → (pool : Pool) × Reach floats max_thread min_thread
          (record s { pool = pool; handlers = set s.handlers i fetching })
  counted {s} i r at =
      let busy = take_connection s.pool in
      elim (Bool-cases (need_resize floats (load floats (take_connection s.pool)))) [
        | inr low ↦ (busy, later r (count i at low))
        | inl high ↦
            let asked = later r (overload i at high) in
            let done = later asked (ask i (get_elem?-set_at s.handlers i asking at)) in
            (
              wake_pooler busy,
              subst
                  (λ hs.
                    Reach floats max_thread min_thread
                      (record s { pool = wake_pooler (take_connection s.pool); handlers = hs }))
                  (set-set s.handlers i asking fetching) done,
            )
      ]

-- With at least two threads and fewer than 2^31 - 1, whatever the client, a state can be reached
-- in which a handler is about to dequeue a client and the queue is empty, so that dequeue exits.
pub shutdown_race :
    {F : Type 0} (floats : Floats F) (max_thread min_thread clientfd : ℕ)
    → 2 ≤ min_thread
    → min_thread < int_max
    → (s : Server) × Reach floats max_thread min_thread s
      × (get_elem? s.handlers 1 ≡ some fetching)
      × (dequeue s.clients ≡ err exited)
unfolding create_server
shutdown_race floats max_thread zero clientfd le small = absurd (omega arith)
shutdown_race floats max_thread (suc zero) clientfd le small = absurd (omega arith)
shutdown_race floats max_thread (suc (suc n)) clientfd le small =
    let (q, q', added, more, taken, none_left) = one_client clientfd in
    let r0 : Reach floats max_thread (suc (suc n)) (create_server false (suc (suc n))) =
      start false small in
    let r1 = later r0 (accept clientfd refl added) in
    let r2 = later r1 (forward refl) in
    let r3 = later r2 (wait 0 refl (omega arith)) in
    let r4 = later r3 (interrupt refl) in
    let r5 = later r4 (kill_listener refl) in
    let r6 = later r5 (release refl) in
    let r7 = later r6 (wait 1 refl (omega arith)) in
    let r8 = later r7 (proceed 0 refl more) in
    let r9 = later r8 (proceed 1 refl more) in
    let (pool, r10) = counted floats max_thread (suc (suc n)) 0 r9 refl in
    let (pool', r11) = counted floats max_thread (suc (suc n)) 1 r10 refl in
    let r12 = later r11 (fetch 0 clientfd refl taken) in (_, r12, refl, none_left)
