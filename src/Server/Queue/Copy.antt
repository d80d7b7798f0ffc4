-- ===== src/Server/Queue/Copy.antt =====
-- `copy` of queue.h: a faithful copy, or an overrun of the destination's line.
use cse344_assignments.Base.{
  ℕ, zero, suc, ◌+◌, ◌≤◌, ◌<◌, ◌≡◌, refl, sym, ap, ◌∙◌, Option, List, length, get_elem?, set,
  length-set, Window-agree, ok, err, out_of_bounds, store_lem, store-out_of_bounds, load-eq-ok,
  load_total, get_elem?-set_self, get_elem?-set_ne, dec_lt, arith,
}
use cse344_assignments.Server.Queue.{Queue, copy, copy_line}
use cse344_assignments.Server.Queue.Inv.{IsQueue}

-- What `copy_line` leaves in the destination: the `n` slots from `i` on are the source's.
module _ {ℓ} {A : Type ℓ} (src : List (Option A)) where
  pub copy_line_lem :
      (n i : ℕ) (dest : List (Option A))
      → i + n ≤ length src
      → i + n ≤ length dest
      → (line : List (Option A)) × (copy_line n i src dest ≡ ok line)
        × (length line ≡ length dest)
        × ((j : ℕ) → j < i → get_elem? line j ≡ get_elem? dest j)
        × ((j : ℕ) → i ≤ j → j < i + n → get_elem? line j ≡ get_elem? src j)
  unfolding copy_line
  copy_line_lem zero i dest hs hd =
      (dest, refl, refl, λ j lt. refl, λ j le lt. absurd (omega arith))
  copy_line_lem (suc n) i dest hs hd =
      let (slot, at) = load_total src i (omega arith) in
      let (line, e, l, below, above) =
        copy_line_lem n (i + 1) (set dest i slot) (omega arith)
          (omega (arith, length-set dest i slot)) in
      (
        line,
        ground (arith, at, store_lem dest i slot (omega arith), e),
        l ∙ length-set dest i slot,
        λ j lt. below j (omega arith) ∙ get_elem?-set_ne dest slot (omega arith),
        λ j le lt. elim (dec_lt i j) [
          | yes past ↦ above j (omega arith) (omega arith)
          | no here ↦
              let same : j ≡ i = omega arith in
              below j (omega arith)
              ∙ rw same (get_elem?-set_self dest i slot (omega arith))
              ∙ sym (ap (get_elem? src) same ∙ load-eq-ok src i at)
        ],
      )

  -- A destination that is too short is overrun.
  pub copy_line_overrun :
      (n i : ℕ) (dest : List (Option A))
      → i + n ≤ length src
      → length dest < i + n
      → i ≤ length dest
      → copy_line n i src dest ≡ err out_of_bounds
  unfolding copy_line
  copy_line_overrun zero i dest hs hd le = absurd (omega arith)
  copy_line_overrun (suc n) i dest hs hd le = elim (dec_lt i (length dest)) [
    | yes lt ↦
        let (slot, at) = load_total src i (omega arith) in
        let l = length-set dest i slot in
        rw (at, store_lem dest i slot lt)
          (copy_line_overrun n (i + 1) (set dest i slot) (omega arith) (omega arith) (omega arith))
    | no past ↦
        let (slot, at) = load_total src i (omega arith) in
        rw (at, store-out_of_bounds dest i slot (omega arith))
  ]

module _ {ℓ} {A : Type ℓ} where
  -- A copy of a well-formed queue into a queue whose line is at least as long as its capacity
  -- succeeds and holds the same items in order, in the capacity of the source.
  pub copy_lem :
      (src dest : Queue A) (xs : List A)
      → src.cap ≤ length dest.line
      → IsQueue src xs
      → (q : Queue A) × (copy src dest ≡ ok q) × IsQueue q xs × (q.cap ≡ src.cap)
  unfolding copy
  copy_lem src dest xs fits v =
      let (line, e, l, below, above) =
        copy_line_lem src.line src.cap 0 dest.line (omega (arith, v.alloc)) (omega arith) in
      (
        record src { line = line },
        rw e,
        record {
          count = v.count;
          room = v.room;
          alloc = omega arith;
          small = v.small;
          front_in = v.front_in;
          back_at = v.back_at;
          slots =
              Window-agree src.line line src.cap src.front xs
                (λ i lt. above i (omega arith) (omega arith)) v.front_in v.slots;
        },
        refl,
      )

  -- A copy of a queue whose capacity is above the length of the other's line writes past its end.
  pub copy_overrun :
      (src dest : Queue A) (xs : List A)
      → length dest.line < src.cap
      → IsQueue src xs
      → copy src dest ≡ err out_of_bounds
  unfolding copy
  copy_overrun src dest xs short v = rw (
      copy_line_overrun src.line src.cap 0 dest.line (omega (arith, v.alloc)) (omega arith)
        (omega arith))
