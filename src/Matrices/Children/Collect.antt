-- ===== src/Matrices/Children/Collect.antt =====
-- The parent of homework-3/solution/source/program.c collects the product from its children.
use cse344_assignments.Libc.{}
