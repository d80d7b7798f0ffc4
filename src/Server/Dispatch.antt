-- ===== src/Server/Dispatch.antt =====
-- How final-project/solution/source/server.c hands clients to its pool: `connection_listener`, the
-- loops of `connection_handler` and `pool_resizer`, and `handle_sigint` up to its last post. What is
-- done under `graph_mutex` or `load_mutex` is one step, and so is each operation on `handler_sem` and
-- `pooler_sem` and each start of a thread; all that a handler does for a client after `dequeue` is one.
pub mod Balance
pub mod Progress
pub mod Shutdown
use cse344_assignments.Base.{
  ℕ, ◌+◌, ◌-◌, ◌≤◌, ◌<◌, ◌≡◌, Bool, true, false, ◌&&◌, some, List, [], ◌∷◌, ◌++◌, get_elem?, set,
  replicate, ok,
}
use cse344_assignments.Server.Queue.{Queue, create_queue, enqueue, dequeue, is_empty}
use cse344_assignments.Libc.{int_max}
use cse344_assignments.Server.Pool.{
  Floats, Pool, load, need_resize, can_grow, grown, take_connection, wake_pooler, finish_connection,
}

-- Where the listener stands: at `accept`, before the post of `handler_sem`, or cancelled.
pub data Listener : Type 0 where
  accepting : Listener
  forwarding : Listener
  cancelled : Listener

-- Where a handler stands: before `handler_sem`, at `is_finished`, before it counts itself, before
-- it asks the resizer, before `dequeue`, with a client, before the post at its end, or gone.
pub data Handler : Type 0 where
  idle : Handler
  woken : Handler
  counting : Handler
  asking : Handler
  fetching : Handler
  serving : ℕ → Handler
  leaving : Handler
  gone : Handler

-- Where the resizer stands: at `pooler_sem`, at its test, before it starts the thread of an index, or
-- before it clears `resize`.
pub data Resizer : Type 0 where
  sleeping : Resizer
  testing : Resizer
  starting : ℕ → Resizer
  clearing : Resizer

-- Where `handle_sigint` stands: not called, before the listener and the resizer are cancelled, before
-- its post, or waiting for the handlers.
pub data Sigint : Type 0 where
  unsignalled : Sigint
  killing : Sigint
  releasing : Sigint
  joining : Sigint

-- The parts of `struct ConnHandlerResource` and `struct DynamicPoolerResource` that they share, and
-- where the threads stand.
pub record Server : Type 0 where
  pub clients : Queue ℕ
  pub handler_sem : ℕ
  pub finished : Bool
  pub pool : Pool
  pub resizer : Resizer
  pub listener : Listener
  pub handlers : List Handler
  pub sigint : Sigint

-- `init_shared_resources` and `create_pool`; no value is given to `resize`, which is what the memory
-- held.
unfoldable pub create_server : Bool → ℕ → Server
create_server memory min_thread = record {
  clients = create_queue 1024;
  handler_sem = 0;
  finished = false;
  pool = record { n = min_thread + 1; pooler_sem = 0; resize = memory; handler_count = 0 };
  resizer = sleeping;
  listener = accepting;
  handlers = replicate min_thread idle;
  sigint = unsignalled;
}

-- The resizer is cancelled with the listener.
abbrev pub resizer_runs : Sigint → Bool
resizer_runs unsignalled = true
resizer_runs killing = true
resizer_runs releasing = false
resizer_runs joining = false

-- `is_finished`.
abbrev pub is_finished : Server → Bool
is_finished s = s.finished && is_empty s.clients

-- A handler gets to another place.
abbrev pub handler_to : Server → ℕ → Handler → Server
handler_to s i h = record s { handlers = set s.handlers i h }

module _ {F : Type 0} (floats : Floats F) (max_thread : ℕ) where
  pub data Step (s : Server) : Server → Type 0 where
    -- `connection_listener`
    accept :
        (clientfd : ℕ) {q : Queue ℕ}
        → s.listener ≡ accepting
        → enqueue s.clients clientfd ≡ ok q
        → Step s (record s { clients = q; listener = forwarding })
    forward :
        s.listener ≡ forwarding
        → Step s (record s { handler_sem = s.handler_sem + 1; listener = accepting })
    -- `connection_handler`
    wait :
        (i : ℕ)
        → get_elem? s.handlers i ≡ some idle
        → 0 < s.handler_sem
        → Step s (record s { handler_sem = s.handler_sem - 1; handlers = set s.handlers i woken })
    proceed :
        (i : ℕ)
        → get_elem? s.handlers i ≡ some woken
        → is_finished s ≡ false
        → Step s (handler_to s i counting)
    stop :
        (i : ℕ)
        → get_elem? s.handlers i ≡ some woken
        → is_finished s ≡ true
        → Step s (handler_to s i leaving)
    count :
        (i : ℕ)
        → get_elem? s.handlers i ≡ some counting
        → need_resize floats (load floats (take_connection s.pool)) ≡ false
        → Step s (record s { pool = take_connection s.pool; handlers = set s.handlers i fetching })
    overload :
        (i : ℕ)
        → get_elem? s.handlers i ≡ some counting
        → need_resize floats (load floats (take_connection s.pool)) ≡ true
        → Step s (record s { pool = take_connection s.pool; handlers = set s.handlers i asking })
    ask :
        (i : ℕ)
        → get_elem? s.handlers i ≡ some asking
        → Step s (record s { pool = wake_pooler s.pool; handlers = set s.handlers i fetching })
    fetch :
        (i clientfd : ℕ) {q : Queue ℕ}
        → get_elem? s.handlers i ≡ some fetching
        → dequeue s.clients ≡ ok (clientfd, q)
        → Step s (record s { clients = q; handlers = set s.handlers i (serving clientfd) })
    serve :
        (i clientfd : ℕ)
        → get_elem? s.handlers i ≡ some (serving clientfd)
        → Step s (record s { pool = finish_connection s.pool; handlers = set s.handlers i idle })
    pass_on :
        (i : ℕ)
        → get_elem? s.handlers i ≡ some leaving
        → Step s (record s { handler_sem = s.handler_sem + 1; handlers = set s.handlers i gone })
    -- `pool_resizer`
    rouse :
        resizer_runs s.sigint ≡ true
        → s.resizer ≡ sleeping
        → 0 < s.pool.pooler_sem
        → Step s (record s {
          pool = record (s.pool) { pooler_sem = s.pool.pooler_sem - 1 };
          resizer = testing;
        })
    extend :
        resizer_runs s.sigint ≡ true
        → s.resizer ≡ testing
        → can_grow floats max_thread s.pool ≡ true
        → Step s (record s {
          pool = record (s.pool) { n = grown floats s.pool };
          resizer = starting s.pool.n;
        })
    keep :
        resizer_runs s.sigint ≡ true
        → s.resizer ≡ testing
        → can_grow floats max_thread s.pool ≡ false
        → Step s (record s { resizer = clearing })
    start_thread :
        (i : ℕ)
        → resizer_runs s.sigint ≡ true
        → s.resizer ≡ starting i
        → i < s.pool.n
        → Step s (record s { resizer = starting (i + 1); handlers = s.handlers ++ idle ∷ [] })
    all_started :
        (i : ℕ)
        → resizer_runs s.sigint ≡ true
        → s.resizer ≡ starting i
        → s.pool.n ≤ i
        → Step s (record s { resizer = clearing })
    clear :
        resizer_runs s.sigint ≡ true
        → s.resizer ≡ clearing
        → Step s (record s { pool = record (s.pool) { resize = false }; resizer = sleeping })
    -- `handle_sigint`
    interrupt : s.sigint ≡ unsignalled → Step s (record s { finished = true; sigint = killing })
    kill_listener :
        s.sigint ≡ killing → Step s (record s { listener = cancelled; sigint = releasing })
    release :
        s.sigint ≡ releasing
        → Step s (record s { handler_sem = s.handler_sem + 1; sigint = joining })

  pub data Reach (min_thread : ℕ) : Server → Type 0 where
    start :
        (memory : Bool) → min_thread < int_max → Reach min_thread (create_server memory min_thread)
    later : {s t : Server} → Reach min_thread s → Step s t → Reach min_thread t
