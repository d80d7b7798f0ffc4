-- ===== src/Points/Examples.antt =====
-- The theorem on the first line at a file of the lines "ab" and "c", and those on the points and the
-- statistics at a few of them.
use cse344_assignments.Base.{
  ℕ, ◌+◌, ◌≡◌, ◌<◌, refl, true, List, [], ◌∷◌, ◌++◌, get_or, replicate, ok, arith,
}
use cse344_assignments.Points.{
  space, newline, File, Reading, next_available, read_line, remove_line,
}
use cse344_assignments.Points.Lines.{pop_line}
use cse344_assignments.Points.Texts.{points_text, buf2points, buf2points-points_text}
use cse344_assignments.Points.Stats.{
  Metric, MetricsStats, new_stats, update_all, IsStats, update_all-new_stats,
}
use cse344_assignments.Libc.{pos}

pop_line_example :
    (r : Reading) × (f : File) × (read_line
        (next_available
          (record { bytes = b'a' ∷ (b'b' ∷ (newline ∷ (b'c' ∷ (newline ∷ [])))); cursor = 5 }))
        (replicate 512 0)
      ≡ ok (r, f))
    × (r.cont ≡ true)
    × ((k : ℕ) → k < 3 → get_or r.buf (k + 1) 0 ≡ get_or (b'a' ∷ (b'b' ∷ (newline ∷ []))) k 0)
    × (remove_line f
        ≡ ok (record { bytes = (b'c' ∷ (newline ∷ [])) ++ replicate 3 space; cursor = 0 }))
pop_line_example =
    pop_line b'a' 5 (b'b' ∷ []) (b'c' ∷ (newline ∷ [])) (replicate 512 0) (omega arith)
      (omega arith) (omega arith) (omega arith) (omega arith) refl

buf2points-points_text_example :
    buf2points 2 (points_text ((97, 10) ∷ (0, 127) ∷ []) (b'x' ∷ []))
    ≡ ok ((pos 97, pos 10) ∷ (pos 0, pos 127) ∷ [], b'x' ∷ [])
buf2points-points_text_example =
    buf2points-points_text ((97, 10) ∷ (0, 127) ∷ []) (b'x' ∷ []) (omega arith)

-- Eleven lines, one more than the array begins with; a float is a number here.
abbrev eleven : List (Metric ℕ)
eleven = replicate 11 (record { mae = 1; mse = 4; rmse = 2 })

update_all-new_stats_example :
    (stats : MetricsStats ℕ) × (update_all eleven new_stats ≡ ok stats) × IsStats stats eleven
update_all-new_stats_example = update_all-new_stats eleven (omega arith)
