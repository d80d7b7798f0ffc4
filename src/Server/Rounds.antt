-- ===== src/Server/Rounds.antt =====
-- The theorems on the listener and the handlers at runs of a pool of two.
use cse344_assignments.Base.{
  ℕ, ◌+◌, ◌*◌, ◌/◌, leb, ◌≡◌, refl, false, some, none, [], ◌∷◌, get_elem?, replicate, ok, err,
  exited, arith,
}
use cse344_assignments.Server.Queue.{
  Queue, create_queue, enqueue, enqueue_within, append, is_full, dequeue, is_empty,
}
use cse344_assignments.Server.Pool.{Floats, need_resize, take_connection}
use cse344_assignments.Server.Dispatch.{
  accepting, sleeping, idle, fetching, unsignalled, Server, create_server, Reach, start, later,
  accept, forward, wait, proceed, count,
}
use cse344_assignments.Server.Dispatch.Balance.{handler_finds_client}
use cse344_assignments.Server.Dispatch.Progress.{CanServe, client_progress}
use cse344_assignments.Server.Dispatch.Shutdown.{shutdown_race}

abbrev one_item : Queue ℕ
one_item = record { front = 0; back = 0; cap = 1024; size = 1; line = some 7 ∷ replicate 1023 none }

enqueue-one_item : enqueue (create_queue 1024) 7 ≡ ok one_item
unfolding enqueue enqueue_within append is_full create_queue
enqueue-one_item = refl

-- Hundredths for floats.
abbrev hundredths : Floats ℕ
hundredths = record {
  of_int = λ n. 100 * n;
  to_int = λ a. a / 100;
  plus = λ a b. a + b;
  times = λ a b. a * b / 100;
  quotient = λ a b. 100 * a / b;
  at_most = leb;
  max_load = 75;
  grow_size = 125;
}

-- The first handler is about to take the client 7.
abbrev delegated : Server
delegated = record {
  clients = one_item;
  handler_sem = 0;
  finished = false;
  pool = record { n = 3; pooler_sem = 0; resize = false; handler_count = 1 };
  resizer = sleeping;
  listener = accepting;
  handlers = fetching ∷ idle ∷ [];
  sigint = unsignalled;
}

delegated-Reach : Reach hundredths 8 2 delegated
unfolding create_server take_connection need_resize
delegated-Reach =
    let r0 : Reach hundredths 8 2 (create_server false 2) = start false (omega arith) in
    let r1 = later r0 (accept 7 refl enqueue-one_item) in
    let r2 = later r1 (forward refl) in
    let r3 = later r2 (wait 0 refl (omega arith)) in
    let r4 = later r3 (proceed 0 refl refl) in later r4 (count 0 refl refl)

handler_finds_client_example :
    (clientfd : ℕ) × (q : Queue ℕ) × (dequeue one_item ≡ ok (clientfd, q))
handler_finds_client_example = handler_finds_client hundredths 8 0 delegated-Reach refl refl

shutdown_race_example :
    (s : Server) × Reach hundredths 8 2 s
    × (get_elem? s.handlers 1 ≡ some fetching)
    × (dequeue s.clients ≡ err exited)
shutdown_race_example = shutdown_race hundredths 8 2 7 (omega arith) (omega arith)

client_progress_example : CanServe hundredths 8 delegated
unfolding is_empty
client_progress_example = client_progress hundredths 8 (omega arith) delegated-Reach refl refl
