-- ===== src/Server/Dispatch/Balance.antt =====
-- The clients of final-project/solution/source/server.c against the posts of `handler_sem`, until a
-- signal comes.
use cse344_assignments.Base.{
  ℕ, ◌+◌, ◌≡◌, refl, sym, ap, ◌∙◌, subst, Bool, true, false, some, List, [], ◌∷◌, ◌++◌, length,
  length-append, get_elem?, set, tally, tally-set, tally-replicate, tally_one, ok, ok-injective,
  arith,
}
use cse344_assignments.Server.Queue.{Queue, create_queue, dequeue}
use cse344_assignments.Server.Queue.Inv.{IsQueue, create_queue-IsQueue, dequeue_front}
use cse344_assignments.Server.Queue.Doubling.{IsDoubled, enqueue-eq-ok}
use cse344_assignments.Server.Pool.{Floats, Pool}
use cse344_assignments.Server.Dispatch.{
  Listener, accepting, forwarding, cancelled, Handler, idle, woken, counting, asking, fetching,
  serving, leaving, gone, Server, create_server, is_finished, Step, accept, forward, wait, proceed,
  stop, count, overload, ask, fetch, serve, Sigint, unsignalled, pass_on, Resizer, rouse, extend,
  keep, start_thread, all_started, clear, interrupt, kill_listener, release, Reach, start, later,
}

-- A handler that has taken a post and not yet its client.
abbrev pub expecting : Handler → ℕ
expecting idle = 0
expecting woken = 1
expecting counting = 1
expecting asking = 1
expecting fetching = 1
expecting (serving clientfd) = 0
expecting leaving = 0
expecting gone = 0

abbrev pub ended : Handler → ℕ
ended idle = 0
ended woken = 0
ended counting = 0
ended asking = 0
ended fetching = 0
ended (serving clientfd) = 0
ended leaving = 1
ended gone = 1

-- A client that is in the queue and not yet posted.
abbrev pub unposted : Listener → ℕ
unposted accepting = 0
unposted forwarding = 1
unposted cancelled = 0

-- Each client in the queue has a post, or a handler that took one, but for the last.
pub record IsBalanced (s : Server) (xs : List ℕ) : Type 0 where
  pub queue : IsQueue s.clients xs
  pub doubled : IsDoubled s.clients.cap
  pub balance : length xs ≡ s.handler_sem + tally expecting s.handlers + unposted s.listener
  pub none_ended : tally ended s.handlers ≡ 0
  pub quiet : s.sigint ≡ unsignalled

-- A new handler.
tally-more :
    (w : Handler → ℕ) (hs : List Handler) → w idle ≡ 0 → tally w (hs ++ idle ∷ []) ≡ tally w hs
unfolding tally
tally-more w [] e = omega (arith, e)
tally-more w (h ∷ hs) e = omega (arith, tally-more w hs e)

true-ne-false : {b : Bool} → b ≡ true → ¬ (b ≡ false)
true-ne-false e f = cc

called : {a b c : Sigint} → a ≡ b → a ≡ c → ¬ (b ≡ c) → ⊥
called p q ne = ne (sym p ∙ q)

-- A signal is not taken back.
still :
    {F : Type 0} {floats : Floats F} {max_thread : ℕ} {s t : Server}
    → Step floats max_thread s t
    → t.finished ≡ false
    → s.finished ≡ false
still (accept clientfd w e) f = f
still (forward w) f = f
still (wait i at pos) f = f
still (proceed i at no_end) f = f
still (stop i at end) f = f
still (count i at low) f = f
still (overload i at high) f = f
still (ask i at) f = f
still (fetch i clientfd at e) f = f
still (serve i clientfd at) f = f
still (pass_on i at) f = f
still (rouse runs here posted) f = f
still (extend runs here can) f = f
still (keep runs here cannot) f = f
still (start_thread i runs here lt) f = f
still (all_started i runs here le) f = f
still (clear runs here) f = f
still (interrupt w) f = absurd (true-ne-false refl f)
still (kill_listener w) f = f
still (release w) f = f

module _ {F : Type 0} (floats : Floats F) (max_thread : ℕ) where
  create_server-IsBalanced :
      (memory : Bool) (min_thread : ℕ) → IsBalanced (create_server memory min_thread) []
  unfolding create_server
  create_server-IsBalanced memory n = record {
    queue = create_queue-IsQueue 1024 (omega arith) (omega arith);
    doubled = (20, unfold create_queue in refl);
    balance = omega (arith, tally-replicate {a = idle} expecting n refl);
    none_ended = tally-replicate {a = idle} ended n refl;
    quiet = refl;
  }

  abbrev pub IsBalancedNow : Server → Type 0
  IsBalancedNow s = (xs : List ℕ) × IsBalanced s xs

  -- A handler goes on, with or without its client, and the resizer changes the pool.
  move-IsBalanced :
      {s : Server} (xs : List ℕ)
      → IsBalanced s xs
      → {pool : Pool} (i : ℕ) {h : Handler} (h' : Handler) → get_elem? s.handlers i ≡ some h
      → expecting h' ≡ expecting h
      → ended h' ≡ ended h
      → IsBalanced (record s { pool = pool; handlers = set s.handlers i h' }) xs
  move-IsBalanced {s} xs v i h' at e e' = record {
    queue = v.queue;
    doubled = v.doubled;
    balance = omega (arith, v.balance, tally-set expecting s.handlers i h' at, e);
    none_ended = omega (arith, v.none_ended, tally-set ended s.handlers i h' at, e');
    quiet = v.quiet;
  }

  resizer-IsBalanced :
      {s : Server} (xs : List ℕ)
      → IsBalanced s xs
      → {pool : Pool} {resizer : Resizer}
      → IsBalanced (record s { pool = pool; resizer = resizer }) xs
  resizer-IsBalanced xs v = record {
    queue = v.queue;
    doubled = v.doubled;
    balance = v.balance;
    none_ended = v.none_ended;
    quiet = v.quiet;
  }

  -- While no signal has come the balance is kept.
  Step-IsBalanced :
      {s t : Server}
      → Step floats max_thread s t
      → s.finished ≡ false
      → t.finished ≡ false
      → IsBalancedNow s
      → IsBalancedNow t
  Step-IsBalanced {s} (accept clientfd w e) f g (xs, v) =
      let (q, d, c) = enqueue-eq-ok s.clients xs clientfd v.doubled v.queue e in
      (
        xs ++ clientfd ∷ [],
        record {
          queue = q;
          doubled = d;
          balance = omega (arith, v.balance, length-append xs (clientfd ∷ []), ap unposted w);
          none_ended = v.none_ended;
          quiet = v.quiet;
        },
      )
  Step-IsBalanced {s} (forward w) f g (xs, v) = (
    xs,
    record {
      queue = v.queue;
      doubled = v.doubled;
      balance = omega (arith, v.balance, ap unposted w);
      none_ended = v.none_ended;
      quiet = v.quiet;
    },
  )
  Step-IsBalanced {s} (wait i at pos) f g (xs, v) = (
    xs,
    record {
      queue = v.queue;
      doubled = v.doubled;
      balance = omega (arith, v.balance, pos, tally-set expecting s.handlers i woken at);
      none_ended = omega (arith, v.none_ended, tally-set ended s.handlers i woken at);
      quiet = v.quiet;
    },
  )
  Step-IsBalanced (proceed i at no_end) f g (xs, v) =
      (xs, move-IsBalanced xs v i counting at refl refl)
  Step-IsBalanced {s} (stop i at end) f g (xs, v) = absurd (not_yet f end)
    where
      not_yet : s.finished ≡ false → ¬ (is_finished s ≡ true)
      not_yet f e = ground arith
  Step-IsBalanced (count i at low) f g (xs, v) = (xs, move-IsBalanced xs v i fetching at refl refl)
  Step-IsBalanced (overload i at high) f g (xs, v) =
      (xs, move-IsBalanced xs v i asking at refl refl)
  Step-IsBalanced (ask i at) f g (xs, v) = (xs, move-IsBalanced xs v i fetching at refl refl)
  Step-IsBalanced {s} (fetch i clientfd {q} at e) f g ([], v) =
      absurd (omega (arith, v.balance, tally_one expecting s.handlers i at))
  Step-IsBalanced {s} (fetch i clientfd {q} at e) f g (x ∷ xs, v) =
      let (q', e', v', c) = dequeue_front s.clients x xs v.queue in
      let same : q' ≡ q = ap (λ (p : ℕ × Queue ℕ). p.1) (ok-injective (sym e' ∙ e)) in
      (
        xs,
        record {
          queue = subst (λ q. IsQueue q xs) same v';
          doubled = subst (λ q. IsDoubled q.cap) same (subst IsDoubled (sym c) v.doubled);
          balance =
              omega (arith, v.balance, tally-set expecting s.handlers i (serving clientfd) at);
          none_ended =
              omega (arith, v.none_ended, tally-set ended s.handlers i (serving clientfd) at);
          quiet = v.quiet;
        },
      )
  Step-IsBalanced (serve i clientfd at) f g (xs, v) = (xs, move-IsBalanced xs v i idle at refl refl)
  Step-IsBalanced {s} (pass_on i at) f g (xs, v) =
      absurd (omega (arith, v.none_ended, tally_one ended s.handlers i at))
  Step-IsBalanced (rouse runs here posted) f g (xs, v) = (xs, resizer-IsBalanced xs v)
  Step-IsBalanced (extend runs here can) f g (xs, v) = (xs, resizer-IsBalanced xs v)
  Step-IsBalanced (keep runs here cannot) f g (xs, v) = (xs, resizer-IsBalanced xs v)
  Step-IsBalanced {s} (start_thread i runs here lt) f g (xs, v) = (
    xs,
    record {
      queue = v.queue;
      doubled = v.doubled;
      balance = omega (arith, v.balance, tally-more expecting s.handlers refl);
      none_ended = omega (arith, v.none_ended, tally-more ended s.handlers refl);
      quiet = v.quiet;
    },
  )
  Step-IsBalanced (all_started i runs here le) f g (xs, v) = (xs, resizer-IsBalanced xs v)
  Step-IsBalanced (clear runs here) f g (xs, v) = (xs, resizer-IsBalanced xs v)
  Step-IsBalanced (interrupt w) f g b = absurd (true-ne-false refl g)
  Step-IsBalanced (kill_listener w) f g (xs, v) = absurd (called v.quiet w (λ e. cc))
  Step-IsBalanced (release w) f g (xs, v) = absurd (called v.quiet w (λ e. cc))

  pub Reach-IsBalanced :
      {min_thread : ℕ} {s : Server}
      → Reach floats max_thread min_thread s
      → s.finished ≡ false
      → IsBalancedNow s
  Reach-IsBalanced (start memory small) f = ([], create_server-IsBalanced memory _)
  Reach-IsBalanced (later {s} r st) f =
      let before = still st f in Step-IsBalanced st before f (Reach-IsBalanced r before)

  -- In every reachable state before SIGINT, with any number of handlers and any growth of the
  -- pool, a handler that is about to dequeue a client finds one.
  pub handler_finds_client :
      {min_thread : ℕ} {s : Server} (i : ℕ)
      → Reach floats max_thread min_thread s
      → s.finished ≡ false
      → get_elem? s.handlers i ≡ some fetching
      → (clientfd : ℕ) × (q : Queue ℕ) × (dequeue s.clients ≡ ok (clientfd, q))
  handler_finds_client {s = s} i r f at = by (Reach-IsBalanced r f)
    where
      by : IsBalancedNow s → (clientfd : ℕ) × (q : Queue ℕ) × (dequeue s.clients ≡ ok (clientfd, q))
      by ([], v) = absurd (omega (arith, v.balance, tally_one expecting s.handlers i at))
      by (x ∷ xs, v) = let (q, e, v', c) = dequeue_front s.clients x xs v.queue in (x, q, e)
