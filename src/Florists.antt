-- ===== src/Florists.antt =====
-- The flower shop of homework-5/solution/source: which florist gets a request, and the threads that
-- deliver the requests.
pub mod Queue
pub mod Choice
pub mod Flowers
pub mod Shop
mod Examples
