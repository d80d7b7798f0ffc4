-- ===== src/Server/Packet/Fits.antt =====
-- The packet is the text of the path, and its buffers are large enough.
use cse344_assignments.Base.{
  ℕ, zero, suc, ◌+◌, ◌*◌, ◌/◌, ◌%◌, ◌≤◌, ◌<◌, ◌≡◌, ◌≢◌, refl, sym, ap, subst, ◌∙◌, true, leb,
  leb→le, guard, err, int_overflow, ◌>>◌, List, [], ◌∷◌, ◌++◌, none, some, inl, inr, ◌==◌,
  if◌then◌else◌, length, ok, ◌>>=◌, false, All, arith, length-append, Bool-cases, lt→ltb,
}
use mathlib.Core.List.{append-nil}
use cse344_assignments.Server.Queue.{Queue, is_empty, size}
use cse344_assignments.Server.Queue.Inv.{
  IsQueue, dequeue_lem, dequeued, dequeued-IsQueue, is_empty_lem,
}
use cse344_assignments.Libc.{int_max, decimal_before, decimal}
use cse344_assignments.Server.Packet.{
  digit_loop, digit, arrow, stop, no_path, write_nodes, prepare_packet,
}

-- The text of a path: its vertices in decimal, with arrows between them and a full stop.
unfoldable pub render : List ℕ → List ℕ
render [] = []
render (x ∷ []) = decimal x ++ stop
render (x ∷ y ∷ xs) = (decimal x ++ arrow) ++ render (y ∷ xs)

digit_loop-ge : (f n acc : ℕ) → acc ≤ digit_loop f n acc
unfolding digit_loop
digit_loop-ge zero n acc = omega arith
digit_loop-ge (suc f) n acc = ground (arith, digit_loop-ge f (n / 10) (acc + 1))

-- A number no larger than another has no more digits, but that 0 has one.
decimal-le :
    (f fm n m acc : ℕ) (rest : List ℕ)
    → n < f
    → m ≤ fm
    → n ≤ m
    → 1 ≤ m
    → length (decimal_before f n rest) + acc ≤ length rest + digit_loop fm m acc
unfolding decimal_before digit_loop
decimal-le zero fm n m acc rest lt le h pos = absurd (omega arith)
decimal-le (suc f) zero n m acc rest lt le h pos = absurd (omega arith)
decimal-le (suc f) (suc fm) n m acc rest lt le h pos = ground (
  arith,
  digit_loop-ge fm (m / 10) (acc + 1),
  decimal-le f fm (n / 10) (m / 10) (acc + 1) ((b'0' + n % 10) ∷ rest),
)

pub length-decimal : (n V : ℕ) → n < V → length (decimal n) ≤ digit V
unfolding decimal digit
length-decimal n V lt =
    omega
      (arith, decimal-le (suc n) V n V 0 [] (omega arith) (omega arith) (omega arith) (omega arith))

module _ (V room : ℕ) where
  -- What is written for the first vertex of the queue.
  chunk : ℕ → List ℕ → List ℕ
  chunk x xs = decimal x ++ (if length xs == 0 then stop else arrow)

  length-chunk : (x : ℕ) (xs : List ℕ) → x < V → length (chunk x xs) < digit V + 4
  unfolding chunk
  length-chunk x xs lt = elim (Bool-cases (length xs == 0)) [
    | inl last ↦ rw last (omega (arith, length-append {0} (decimal x) stop, length-decimal x V lt))
    | inr more ↦ rw more (omega (arith, length-append {0} (decimal x) arrow, length-decimal x V lt))
  ]

  rendered : (x : ℕ) (xs : List ℕ) → chunk x xs ++ render xs ≡ render (x ∷ xs)
  unfolding chunk render
  rendered x [] = append-nil (decimal x ++ stop)
  rendered x (y ∷ xs) = ground arith

  -- One turn of the loop.
  write_node :
      (n : ℕ) (x : ℕ) (xs : List ℕ) (offset : ℕ) (q : Queue ℕ)
      → IsQueue q (x ∷ xs)
      → length (chunk x xs) < digit V + 4
      → offset + length (chunk x xs) < room
      → write_nodes (suc n) (digit V + 4) room offset q ≡ (
          write_nodes n (digit V + 4) room (offset + length (chunk x xs)) (dequeued q) >>= λ rest.
          ok (chunk x xs ++ rest))
  unfolding write_nodes chunk
  write_node n x xs offset q v small inside =
      let full : is_empty q ≡ false = is_empty_lem q (x ∷ xs) v ∙ ground arith in
      let more = is_empty_lem (dequeued q) xs (dequeued-IsQueue q x xs v) in
      rw (
        full,
        dequeue_lem q x xs v,
        more,
        lt→ltb (0 + length (chunk x xs)) (digit V + 4) (omega arith),
        lt→ltb (offset + length (chunk x xs)) room inside,
      )

  write_nodes_lem :
      (xs : List ℕ) (offset : ℕ) (q : Queue ℕ)
      → IsQueue q xs
      → All (λ x. x < V) xs
      → offset + length xs * (digit V + 4) ≤ room
      → write_nodes (length xs) (digit V + 4) room offset q ≡ ok (render xs)
  write_nodes_lem [] offset q v h le = unfold write_nodes render in (rw (is_empty_lem q [] v))
  write_nodes_lem (x ∷ xs) offset q v h le =
      let c = length-chunk x xs h.0 in
      write_node (length xs) x xs offset q v c (omega arith)
      ∙ (let ih =
            write_nodes_lem xs (offset + length (chunk x xs)) (dequeued q)
              (dequeued-IsQueue q x xs v) h.1 (omega arith) in
          rw ih (ap ok (rendered x xs)))

-- For a queue that holds vertices of a graph of V vertices, with room for each of them in a packet
-- of at most INT_MAX bytes, no sprintf of prepare_packet overruns its buffer, and the packet is
-- the text of those vertices in order.
pub prepare_packet_fits :
    (V : ℕ) (xs : List ℕ) (q : Queue ℕ)
    → IsQueue q xs
    → All (λ x. x < V) xs
    → (digit V + 4) * length xs ≤ int_max
    → prepare_packet V (some q) ≡ ok (render xs)
unfolding prepare_packet size
prepare_packet_fits V xs q v h small =
    let c = v.count in
    let within : leb ((digit V + 4) * length xs) int_max ≡ true = ground (arith, small) in
    ap
      (λ n.
        guard (leb ((digit V + 4) * n) int_max) int_overflow
        >> write_nodes n (digit V + 4) ((digit V + 4) * n) 0 q)
      c
    ∙ rw within (write_nodes_lem V ((digit V + 4) * length xs) xs 0 q v h (omega arith))

-- A packet that is made has at most that many bytes.
pub prepare_packet_small :
    (V : ℕ) (xs : List ℕ) (q : Queue ℕ) (text : List ℕ)
    → IsQueue q xs
    → prepare_packet V (some q) ≡ ok text
    → (digit V + 4) * length xs ≤ int_max
unfolding prepare_packet size
prepare_packet_small V xs q text v e = elim (Bool-cases (leb ((digit V + 4) * q.size) int_max)) [
  | inl within ↦
      subst (λ n. (digit V + 4) * n ≤ int_max) v.count
        (leb→le ((digit V + 4) * q.size) int_max within)
  | inr over ↦ absurd (ok-ne-err (sym (rw over at e)))
]
  where
    ok-ne-err : ok text ≢ err int_overflow
    ok-ne-err e = cc

-- The answer that there is no path fits its buffer too.
pub prepare_packet-none : (V : ℕ) → prepare_packet V none ≡ ok no_path
unfolding prepare_packet
prepare_packet-none V = refl
