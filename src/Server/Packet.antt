-- ===== src/Server/Packet.antt =====
-- `digit` and `prepare_packet` of final-project/solution/source/server.c: the text of a path, written
-- into a buffer whose size is computed first. A text is its bytes. A buffer is its size: `sprintf`
-- writes a text and a zero byte, out of bounds if they do not fit.
pub mod Fits
use cse344_assignments.Base.{
  ℕ, zero, suc, ◌+◌, ◌*◌, ◌/◌, List, [], ◌∷◌, ◌++◌, Option, none, some, ◌==◌, ltb, if◌then◌else◌,
  leb, guard, length, int_overflow, Result, ok, err, ◌>>=◌, ◌>>◌, out_of_fuel, out_of_bounds, Bool,
}
use cse344_assignments.Libc.{int_max, decimal}
use cse344_assignments.Server.Queue.{Queue, is_empty, dequeue, size}

-- The loop of `digit`; `n` rounds are enough for `n`.
unfoldable pub digit_loop : ℕ → ℕ → ℕ → ℕ
digit_loop zero n digit_number = digit_number
digit_loop (suc fuel) n digit_number =
    let more = digit_loop fuel (n / 10) (digit_number + 1) in if n == 0 then digit_number else more

unfoldable pub digit : ℕ → ℕ
unfolding digit_loop
digit n = digit_loop n n 0

abbrev pub arrow : List ℕ
arrow = b'-' ∷ b'>' ∷ []

abbrev pub stop : List ℕ
stop = b'.' ∷ []

abbrev pub no_path : List ℕ
no_path =
    b'p' ∷ b'a' ∷ b't' ∷ b'h' ∷ b' ' ∷ b'n' ∷ b'o' ∷ b't' ∷ b' ' ∷ b'p' ∷ b'o' ∷ b's' ∷ b's' ∷ b'i'
    ∷ b'b' ∷ b'l' ∷ b'e' ∷ b'.' ∷ []

-- `sprintf(p + offset, "%s", text)` into `room` bytes.
abbrev pub fits : ℕ → ℕ → List ℕ → Bool
fits room offset text = ltb (offset + length text) room

-- The loop over the queue: what is written after `offset`, for at most `rounds` rounds.
unfoldable pub write_nodes : ℕ → ℕ → ℕ → ℕ → Queue ℕ → Result (List ℕ)
write_nodes zero max_byte room offset bfs = if is_empty bfs then ok [] else err out_of_fuel
write_nodes (suc rounds) max_byte room offset bfs = if is_empty bfs then ok [] else do
  (node, bfs) ← dequeue bfs
  let temp = decimal node ++ (if is_empty bfs then stop else arrow)
  guard (fits max_byte 0 temp) out_of_bounds
  guard (fits room offset temp) out_of_bounds
  rest ← write_nodes rounds max_byte room (offset + length temp) bfs
  ok (temp ++ rest)

-- The packet for a path of a graph of `V` vertices; its size is a product of two `int`.
unfoldable pub prepare_packet : ℕ → Option (Queue ℕ) → Result (List ℕ)
unfolding write_nodes
prepare_packet V none = do guard (fits 19 0 no_path) out_of_bounds; ok no_path
prepare_packet V (some bfs) =
    let max_byte_per_node = digit V + 4 in
    (guard (leb (max_byte_per_node * size bfs) int_max) int_overflow
      >> write_nodes (size bfs) max_byte_per_node (max_byte_per_node * size bfs) 0 bfs)
