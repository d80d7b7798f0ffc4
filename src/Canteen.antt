-- ===== src/Canteen.antt =====
-- The student canteen of midterm-project/solution/source/program.c: its rooms, their semaphores, and
-- the supplier and the cooks at the kitchen, and
-- the cooks, the supervisor and the students at the counter and the tables.
pub mod Room
pub mod Setup
pub mod Kitchen
pub mod Counter
mod Examples
mod Rounds
