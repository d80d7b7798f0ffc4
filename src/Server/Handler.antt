-- ===== src/Server/Handler.antt =====
-- What `connection_handler` of final-project/solution/source/server.c does with one request, from the
-- two vertices that it reads to the text that it writes: the cache, `BFS` and `prepare_packet`. The
-- semaphores around the accesses are in Database; the log and the sockets are left out.
pub mod Correct
use cse344_assignments.Base.{ℕ, List, none, some, Result, ok, ◌>>=◌}
use cse344_assignments.Server.Graph.{Graph}
use cse344_assignments.Server.Cache.{Cache, get_cache, to_cache}
use cse344_assignments.Server.Bfs.{bfs}
use cse344_assignments.Server.Packet.{prepare_packet}

-- A request that the cache does not answer.
unfoldable pub calculate : Graph → Cache → ℕ → ℕ → Result (List ℕ × Cache)
calculate graph cache i1 i2 = do
  result ← bfs graph i1 i2
  path ← prepare_packet graph.V result
  cache' ← to_cache cache i1 i2 path
  ok (path, cache')

-- The text that the client is sent, and the cache afterwards.
unfoldable pub respond : Graph → Cache → ℕ → ℕ → Result (List ℕ × Cache)
respond graph cache i1 i2 = do
  in_cache ← get_cache cache i1 i2
  elim in_cache [ some path ↦ ok (path, cache) | none ↦ calculate graph cache i1 i2 ]
