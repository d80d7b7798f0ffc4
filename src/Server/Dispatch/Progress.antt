-- ===== src/Server/Dispatch/Progress.antt =====
-- Before a signal the threads of final-project/solution/source/server.c do not leave a client waiting.
use cse344_assignments.Base.{
  ℕ, suc, ◌+◌, ◌≤◌, ◌<◌, ◌≡◌, refl, ◌⊎◌, inl, inr, true, false, some, List, [], ◌∷◌, length,
  length-append, length-set, length-replicate, get_elem?, tally, tally_one, dec_lt, Bool-cases,
  arith,
}
use cse344_assignments.Server.Queue.{is_empty}
use cse344_assignments.Server.Queue.Inv.{is_empty_lem, dequeue_front}
use cse344_assignments.Server.Pool.{Floats, load, need_resize, take_connection}
use cse344_assignments.Server.Dispatch.{
  Listener, accepting, forwarding, cancelled, Handler, idle, woken, counting, asking, fetching,
  serving, leaving, gone, Server, create_server, is_finished, Step, accept, forward, wait, proceed,
  stop, count, overload, ask, fetch, serve, pass_on, rouse, extend, keep, start_thread, all_started,
  clear, interrupt, kill_listener, release, Reach, start, later,
}
use cse344_assignments.Server.Dispatch.Balance.{
  expecting, ended, unposted, IsBalanced, Reach-IsBalanced,
}

-- A step of a handler or of the listener with a client that it has accepted.
abbrev pub ServesClient :
    {F : Type 0} {floats : Floats F} {max_thread : ℕ} {s t : Server}
    → Step floats max_thread s t
    → Type 0
ServesClient (accept clientfd w e) = ⊥
ServesClient (forward w) = Unit
ServesClient (wait i at pos) = Unit
ServesClient (proceed i at no_end) = Unit
ServesClient (stop i at end) = ⊥
ServesClient (count i at low) = Unit
ServesClient (overload i at high) = Unit
ServesClient (ask i at) = Unit
ServesClient (fetch i clientfd at e) = Unit
ServesClient (serve i clientfd at) = Unit
ServesClient (pass_on i at) = ⊥
ServesClient (rouse runs here posted) = ⊥
ServesClient (extend runs here can) = ⊥
ServesClient (keep runs here cannot) = ⊥
ServesClient (start_thread i runs here lt) = ⊥
ServesClient (all_started i runs here le) = ⊥
ServesClient (clear runs here) = ⊥
ServesClient (interrupt w) = ⊥
ServesClient (kill_listener w) = ⊥
ServesClient (release w) = ⊥

-- The handlers are at least those that the pool began with.
handlers_stay :
    {F : Type 0} {floats : Floats F} (max_thread min_thread : ℕ) {s : Server}
    → Reach floats max_thread min_thread s
    → min_thread ≤ length s.handlers
unfolding create_server
handlers_stay m n (start memory small) = omega (arith, length-replicate n idle)
handlers_stay m n (later r (accept clientfd w e)) = handlers_stay m n r
handlers_stay m n (later r (forward w)) = handlers_stay m n r
handlers_stay m n (later {s} r (wait i at pos)) =
    omega (arith, handlers_stay m n r, length-set s.handlers i woken)
handlers_stay m n (later {s} r (proceed i at no_end)) =
    omega (arith, handlers_stay m n r, length-set s.handlers i counting)
handlers_stay m n (later {s} r (stop i at end)) =
    omega (arith, handlers_stay m n r, length-set s.handlers i leaving)
handlers_stay m n (later {s} r (count i at low)) =
    omega (arith, handlers_stay m n r, length-set s.handlers i fetching)
handlers_stay m n (later {s} r (overload i at high)) =
    omega (arith, handlers_stay m n r, length-set s.handlers i asking)
handlers_stay m n (later {s} r (ask i at)) =
    omega (arith, handlers_stay m n r, length-set s.handlers i fetching)
handlers_stay m n (later {s} r (fetch i clientfd at e)) =
    omega (arith, handlers_stay m n r, length-set s.handlers i (serving clientfd))
handlers_stay m n (later {s} r (serve i clientfd at)) =
    omega (arith, handlers_stay m n r, length-set s.handlers i idle)
handlers_stay m n (later {s} r (pass_on i at)) =
    omega (arith, handlers_stay m n r, length-set s.handlers i gone)
handlers_stay m n (later r (rouse runs here posted)) = handlers_stay m n r
handlers_stay m n (later r (extend runs here can)) = handlers_stay m n r
handlers_stay m n (later r (keep runs here cannot)) = handlers_stay m n r
handlers_stay m n (later {s} r (start_thread i runs here lt)) =
    omega (arith, handlers_stay m n r, length-append s.handlers (idle ∷ []))
handlers_stay m n (later r (all_started i runs here le)) = handlers_stay m n r
handlers_stay m n (later r (clear runs here)) = handlers_stay m n r
handlers_stay m n (later r (interrupt w)) = handlers_stay m n r
handlers_stay m n (later r (kill_listener w)) = handlers_stay m n r
handlers_stay m n (later r (release w)) = handlers_stay m n r

-- A handler that has taken a post, if there is one.
find_expecting :
    (hs : List Handler)
    → ((i : ℕ) × (h : Handler) × (get_elem? hs i ≡ some h) × (0 < expecting h))
      ⊎ (tally expecting hs ≡ 0)
unfolding tally
find_expecting [] = inr refl
find_expecting (h ∷ hs) = elim (dec_lt 0 (expecting h)) [
  | yes here ↦ inl (0, h, refl, here)
  | no not_here ↦ further (find_expecting hs) not_here
]
  where
    further :
        ((i : ℕ) × (h : Handler) × (get_elem? hs i ≡ some h) × (0 < expecting h))
          ⊎ (tally expecting hs ≡ 0)
        → ¬ (0 < expecting h)
        → ((i : ℕ) × (k : Handler) × (get_elem? (h ∷ hs) i ≡ some k) × (0 < expecting k))
          ⊎ (expecting h + tally expecting hs ≡ 0)
    further (inl (i, k, at, pos)) ne = inl (suc i, k, at, pos)
    further (inr none) ne = inr (omega (arith, none))

listener_posts : (l : Listener) → 0 < unposted l → l ≡ forwarding
listener_posts accepting lt = absurd (omega arith)
listener_posts forwarding lt = refl
listener_posts cancelled lt = absurd (omega arith)

module _ {F : Type 0} (floats : Floats F) (max_thread : ℕ) where
  abbrev pub CanServe : Server → Type 0
  CanServe s = (t : Server) × (st : Step floats max_thread s t) × ServesClient st

  module _ (s : Server) (unfinished : s.finished ≡ false) (x : ℕ) (xs : List ℕ)
      (v : IsBalanced s (x ∷ xs)) where
    goes_on : is_finished s ≡ false
    goes_on = rw unfinished refl

    counting_steps : (i : ℕ) → get_elem? s.handlers i ≡ some counting → CanServe s
    counting_steps i at =
        elim (Bool-cases (need_resize floats (load floats (take_connection s.pool)))) [
          | inl high ↦ (_, overload i at high, tt)
          | inr low ↦ (_, count i at low, tt)
        ]

    expecting_steps :
        (i : ℕ) (h : Handler) → get_elem? s.handlers i ≡ some h → 0 < expecting h → CanServe s
    expecting_steps i idle at pos = absurd (omega arith)
    expecting_steps i woken at pos = (_, proceed i at goes_on, tt)
    expecting_steps i counting at pos = counting_steps i at
    expecting_steps i asking at pos = (_, ask i at, tt)
    expecting_steps i fetching at pos =
        let (q, e, v', c) = dequeue_front s.clients x xs v.queue in (_, fetch i x at e, tt)
    expecting_steps i (serving clientfd) at pos = absurd (omega arith)
    expecting_steps i leaving at pos = absurd (omega arith)
    expecting_steps i gone at pos = absurd (omega arith)

    -- The first handler takes the post, or first ends what it does.
    first_steps : (h : Handler) → get_elem? s.handlers 0 ≡ some h → 0 < s.handler_sem → CanServe s
    first_steps idle at pos = (_, wait 0 at pos, tt)
    first_steps woken at pos = (_, proceed 0 at goes_on, tt)
    first_steps counting at pos = counting_steps 0 at
    first_steps asking at pos = (_, ask 0 at, tt)
    first_steps fetching at pos = expecting_steps 0 fetching at (omega arith)
    first_steps (serving clientfd) at pos = (_, serve 0 clientfd at, tt)
    first_steps leaving at pos =
        absurd (omega (arith, v.none_ended, tally_one ended s.handlers 0 at))
    first_steps gone at pos = absurd (omega (arith, v.none_ended, tally_one ended s.handlers 0 at))

    waiting_steps : 0 < length s.handlers → CanServe s
    waiting_steps some_handler = elim (find_expecting s.handlers) [
      | inl (i, h, at, pos) ↦ expecting_steps i h at pos
      | inr none ↦ elim (dec_lt 0 s.handler_sem) [
        | yes posted ↦ let (h, at) = first_of s.handlers some_handler in first_steps h at posted
        | no unposted_yet ↦
            (_, forward (listener_posts s.listener (omega (arith, v.balance, none))), tt)
      ]
    ]
      where
        first_of : (hs : List Handler) → 0 < length hs → (h : Handler) × (get_elem? hs 0 ≡ some h)
        first_of [] lt = elim lt [ ]
        first_of (h ∷ hs) lt = (h, refl)

  -- With at least one thread, in every reachable state before SIGINT in which the client queue is
  -- not empty, the listener can post a client that it has put there, or a handler can go on
  -- towards its client: no client is left in the queue while all threads wait.
  pub client_progress :
      {min_thread : ℕ} {s : Server}
      → 0 < min_thread
      → Reach floats max_thread min_thread s
      → s.finished ≡ false
      → is_empty s.clients ≡ false
      → CanServe s
  client_progress {min_thread} {s} pos r f more = by (Reach-IsBalanced floats max_thread r f)
    where
      by : (xs : List ℕ) × IsBalanced s xs → CanServe s
      by ([], v) = absurd (true-ne-false (is_empty_lem s.clients [] v.queue) more)
        where
          true-ne-false : is_empty s.clients ≡ true → ¬ (is_empty s.clients ≡ false)
          true-ne-false e f = cc
      by (x ∷ xs, v) =
          waiting_steps s f x xs v (omega (arith, pos, handlers_stay max_thread min_thread r))
