-- ===== src/Server.antt =====
-- The path server of final-project/solution/source: its queue, graph, cache and threads.
pub mod Queue
pub mod Graph
pub mod Bfs
pub mod Cache
pub mod Packet
pub mod Handler
pub mod Pool
pub mod Database
pub mod Dispatch
pub mod Input
mod Tests
mod Examples
mod Rounds
