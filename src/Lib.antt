-- ===== src/Lib.antt =====
-- Verification library of the assignments of CSE 344, systems programming in C.
--
-- The repository holds independent programs. The library models each in a module of its own, and what
-- they share in three more:
--
--   Base: the numbers, lists and tests that all share, and `Result`: C code returns a value or stops with
--     a `Fault`, which is `xerror` or `exit`, a failed `assert`, or an undefined behaviour of C that the
--     code reached (an access out of bounds, a signed overflow, an uninitialised read, a division by 0).
--   Libc: `strtol` and the `%d` of `sprintf`, integers with the range of `int`, and `str2int`, which is
--     homework-4/solution/source/utils.c and has the same text in the other programs.
--   Arguments: the functions `parse_args` on the options that `getopt` returns. Meals is
--     midterm-project/solution/source/utils.c, Serving and Asking are utils.c and client.c of
--     final-project/solution/source, and Files is utils.c of homework-1 to homework-4.
--   Server: final-project/solution/source.
--     Queue is queue.h, the circular queue that grows; Graph and Bfs are graph.h, where BFS keeps a queue
--     of queues; Cache is cache.h; Input, Packet, Handler, Pool, Dispatch and Database are parts of
--     server.c: `find_V` and `read_graph`; `digit` and `prepare_packet`; what `connection_handler` does
--     with a request; the load and the growth of the pool; the listener, the loop of the handlers,
--     the resizer and `handle_sigint` over the client queue; `read_database` and `write_database`, the
--     readers and writers of the cache. The listener puts a client into the queue and posts a semaphore;
--     a handler takes it, reads the cache, calls BFS and prepare_packet on a miss, and writes the cache.
--   Florists: homework-5/solution/source. Queue is the bounded queue.h, Choice is `find_florist`,
--     Flowers is the list of the flowers in `read_single_florist`, and Shop is
--     `supervisor` and the `florist` threads, each region under the mutex one step.
--   Canteen: midterm-project/solution/source/program.c. Room is the array of plates and its operations,
--     Setup is `init`, which sets the semaphores of a room, Kitchen is `supplier` and `cook` at the
--     kitchen, and Counter is `init_rooms` with `cook`, `supervisor` and `student` at the counter and the
--     tables, each operation on a semaphore one step.
--   Chefs: homework-4/solution/source/program.c. The masks of ingredients, the semaphores of a mask and
--     `next_supply`, which reads the supply file; and in Bakery `wholesaler` and the six `chef` threads
--     over the four semaphores of `systemV_semwait` and `systemV_sempost` of utils.c, the store and the
--     dessert. Its children go through the time before `finished` is set, and the time after it.
--   Points: homework-2/solution/source/program.c, the file between its two processes: where P1 writes a
--     line, and how P2 finds, reads and removes the first one; in Texts the points of a line, printed
--     and read back, and in Stats the array of `update_stats`.
--   Matrices: homework-3/solution/source/program.c. The product of two matrices by quarters, from
--     `operands` to `merge_quarters`; in Packets `pack` and `unpack`, and in Children what a child does
--     with its operands and how the parent reads the answers and collects them.
--   Fft: homework-1/solution/source, the lines of 16 complex numbers that programA.c writes and
--     programB.c reads.
--
-- A struct is a record, an array is a list that is read and written within its length, a chain of nodes
-- is a list, and a string is the list of its bytes; a buffer that is only written is its size. The threads
-- or processes of a program are steps of one state, in any order; a wait for a semaphore is a step only
-- when it is above 0, and a wait for a condition variable is a step into a sleep that a broadcast ends.
-- A C `int` that can wrap or overflow is kept as its bit pattern or as an integer, with the overflow as
-- a fault; where a theorem needs a count below 2^31 it says so.
--
-- Loops whose end is not structural run on fuel. `enqueue` and `enlarge` of queue.h call one another, and
-- two calls of `enlarge` inside one another are enough, since an enlarged queue has room. `BFS` is given
-- `rounds` turns, one more than (degree + 1)^V: no walk of a pending path repeats a vertex, so at most
-- that many paths are taken from the queue. The loops of `digit` and `sprintf` on n take at most n turns.
--
-- The loop of `find_V` and that of `read_graph` run for at most as many turns as the file has bytes, and
-- one more: each turn passes a newline or ends.
--
-- Not modelled: sockets, the daemon, `write2matrix` of homework-3, file locks, signals but the
-- SIGINT of the server, logs and messages, clean-up that only frees memory, the `sscanf` of
-- homework-5, the shared file of homework-1, and the line equations and errors of homework-2. The
-- floats are parameters: of `find_florist` with their order, of the matrices and of the pool with
-- their operations, and of `pack` and `unpack` with their texts. The coordinates of homework-2
-- are whole numbers, to which an `int` is rounded as a float of 24 bits. `svd` of
-- homework-3 and the transform of homework-1 are floating-point code, the first of a third party.
pub mod Arguments
pub mod Base
pub mod Canteen
pub mod Chefs
pub mod Fft
pub mod Florists
pub mod Libc
pub mod Matrices
pub mod Points
pub mod Server
