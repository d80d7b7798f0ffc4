-- ===== src/Server/Queue/Fifo.antt =====
-- What a client of queue.h can observe over any sequence of calls, on the queue and on a list.
use cse344_assignments.Base.{
  ℕ, suc, ◌+◌, ◌^◌, ◌≤◌, ◌<◌, ◌≡◌, refl, sym, ap, subst, Bool, List, [], ◌∷◌, ◌++◌, length,
  length-append, ◌==◌, exited, Result, ok, err, ◌>>=◌, arith,
}
use cse344_assignments.Server.Queue.{
  Queue, create_queue, is_empty, dequeue, front, back, size, enqueue, int_max,
}
use cse344_assignments.Server.Queue.Inv.{
  IsQueue, create_queue-IsQueue, dequeue_front, dequeue_empty, front_lem, back_lem, back_empty,
  is_empty_lem,
}
use cse344_assignments.Server.Queue.Doubling.{IsDoubled, enqueue-eq-ok, enqueue_returns}

-- A call of the interface, and what it returns.
pub data Op (A : Type 0) : Type 0 where
  put : A → Op A
  take : Op A
  oldest : Op A
  newest : Op A
  ask_empty : Op A
  ask_size : Op A

pub data Answer (A : Type 0) : Type 0 where
  nothing : Answer A
  item : A → Answer A
  truth : Bool → Answer A
  number : ℕ → Answer A

-- The calls in order; one that stops the program ends the run.
unfoldable pub observe :
    {A S : Type 0} → (Op A → S → Result (Answer A × S)) → List (Op A) → S → Result (List (Answer A))
observe step [] s = ok []
observe step (op ∷ ops) s =
    step op s >>= λ next. observe step ops next.1 >>= λ answers. ok (next.0 ∷ answers)

unfoldable pub on_queue : {A : Type 0} → Op A → Queue A → Result (Answer A × Queue A)
on_queue (put x) q = enqueue q x >>= λ q'. ok (nothing, q')
on_queue take q = dequeue q >>= λ next. ok (item next.0, next.1)
on_queue oldest q = front q >>= λ x. ok (item x, q)
on_queue newest q = back q >>= λ x. ok (item x, q)
on_queue ask_empty q = ok (truth (is_empty q), q)
on_queue ask_size q = ok (number (size q), q)

-- The last item of a list.
abbrev pub last : {A : Type 0} → List A → Result A
last [] = err exited
last (x ∷ []) = ok x
last (x ∷ y ∷ xs) = last (y ∷ xs)

-- The abstract queue: a list with the oldest item first, which never runs out of room.
unfoldable pub on_list : {A : Type 0} → Op A → List A → Result (Answer A × List A)
on_list (put x) xs = ok (nothing, xs ++ (x ∷ []))
on_list take [] = err exited
on_list take (x ∷ xs) = ok (item x, xs)
on_list oldest [] = err exited
on_list oldest (x ∷ xs) = ok (item x, x ∷ xs)
on_list newest xs = last xs >>= λ x. ok (item x, xs)
on_list ask_empty xs = ok (truth (length xs == 0), xs)
on_list ask_size xs = ok (number (length xs), xs)

-- The items that a run adds.
abbrev pub added : {A : Type 0} → List (Op A) → ℕ
added [] = 0
added (put x ∷ ops) = suc (added ops)
added (take ∷ ops) = added ops
added (oldest ∷ ops) = added ops
added (newest ∷ ops) = added ops
added (ask_empty ∷ ops) = added ops
added (ask_size ∷ ops) = added ops

-- A list with an item ends with one.
ends_with :
    {A : Type 0} (x : A) (xs : List A)
    → (ys : List A) × (y : A) × (x ∷ xs ≡ ys ++ (y ∷ [])) × (last (x ∷ xs) ≡ ok y)
ends_with x [] = ([], x, refl, refl)
ends_with x (z ∷ xs) = let (ys, y, e, is) = ends_with z xs in (x ∷ ys, y, ap (λ t. x ∷ t) e, is)

module _ {A : Type 0} where
  front_empty : (q : Queue A) → IsQueue q [] → front q ≡ err exited
  unfolding front
  front_empty q v = let c = v.count in ground arith

  size_lem : (q : Queue A) (xs : List A) → IsQueue q xs → size q ≡ length xs
  unfolding size
  size_lem q xs v = v.count

  -- From a queue that holds a list, the same calls give the same answers.
  observe_lem :
      (ops : List (Op A)) (q : Queue A) (xs : List A)
      → IsDoubled q.cap
      → IsQueue q xs
      → length xs + added ops ≤ 2 ^ 30
      → observe on_queue ops q ≡ observe on_list ops xs
  unfolding observe on_queue on_list
  observe_lem [] q xs d v room = refl
  observe_lem (put x ∷ ops) q xs d v room =
      let (q', e) = enqueue_returns q xs x d v (omega arith) in
      let (v', d', c) = enqueue-eq-ok q xs x d v e in
      rw (e, observe_lem ops q' (xs ++ (x ∷ [])) d' v' (omega (arith, length-append xs (x ∷ []))))
        refl
  observe_lem (take ∷ ops) q [] d v room = rw (dequeue_empty q v) refl
  observe_lem (take ∷ ops) q (x ∷ xs) d v room =
      let (q', e, v', c) = dequeue_front q x xs v in
      rw (e, observe_lem ops q' xs (subst IsDoubled (sym c) d) v' (omega arith)) refl
  observe_lem (oldest ∷ ops) q [] d v room = rw (front_empty q v) refl
  observe_lem (oldest ∷ ops) q (x ∷ xs) d v room =
      rw (front_lem q x xs v, observe_lem ops q (x ∷ xs) d v room) refl
  observe_lem (newest ∷ ops) q [] d v room = rw (back_empty q v) refl
  observe_lem (newest ∷ ops) q (x ∷ xs) d v room =
      let (ys, y, e, is) = ends_with x xs in
      rw (back_lem q ys y (subst (IsQueue q) e v), is, observe_lem ops q (x ∷ xs) d v room) refl
  observe_lem (ask_empty ∷ ops) q xs d v room =
      rw (is_empty_lem q xs v, observe_lem ops q xs d v room) refl
  observe_lem (ask_size ∷ ops) q xs d v room =
      rw (size_lem q xs v, observe_lem ops q xs d v room) refl

  -- For a new queue of a positive capacity that divides 2^30 by a power of 2, any sequence of
  -- calls of enqueue, dequeue, front, back, is_empty and size that adds at most 2^30 items gives
  -- the answers that the same calls give on a list without a bound, up to the call that stops the
  -- program, if one does.
  pub observe-refines :
      (ops : List (Op A)) (n : ℕ)
      → 0 < n
      → n ≤ int_max
      → IsDoubled n
      → added ops ≤ 2 ^ 30
      → observe on_queue ops (create_queue n) ≡ observe on_list ops []
  unfolding create_queue
  observe-refines ops n pos small d room =
      observe_lem ops (create_queue n) [] d (create_queue-IsQueue n pos small) (omega arith)
