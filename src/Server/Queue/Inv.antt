-- ===== src/Server/Queue/Inv.antt =====
-- When a queue of queue.h holds a list of items, and what each operation does to that list.
use cse344_assignments.Base.{
  ℕ, ◌+◌, ◌-◌, ◌%◌, ◌^◌, ◌≤◌, ◌<◌, ◌≡◌, refl, sym, ap, ◌∙◌, Option, none, some, ◌==◌, List, [], ◌∷◌,
  ◌++◌, length, get_elem?, set, length-append, length-set, length-replicate, Window, Window-last,
  Window-set, add-mod_self, ok, err, exited, store_lem, load-get_elem?, arith,
}
use native.Mathlib.Nat.{mod-add-mod, mod-eq_of_lt, mod-lt}
use cse344_assignments.Server.Queue.{
  Queue, is_empty, int_max, create_queue, append, dequeue, front, back,
}

-- The queue holds `xs`, oldest first, and every index and count of it is in range.
pub record IsQueue {ℓ} {A : Type ℓ} (q : Queue A) (xs : List A) : Type ℓ where
  pub count : q.size ≡ length xs
  pub room : q.size ≤ q.cap
  pub alloc : q.cap ≤ length q.line
  pub small : q.cap ≤ int_max
  pub front_in : q.front < q.cap
  pub back_at : q.back ≡ (q.front + q.size + q.cap - 1) % q.cap
  pub slots : Window q.line q.cap q.front xs

pub create_queue-IsQueue {ℓ} :
    {A : Type ℓ} (n : ℕ) → 0 < n → n ≤ int_max → IsQueue {A = A} (create_queue n) []
unfolding create_queue
create_queue-IsQueue {A} n pos small = record {
  count = refl;
  room = omega arith;
  alloc = omega (arith, length-replicate {A = Option A} n none);
  small = small;
  front_in = pos;
  back_at =
      last ∙ sym (mod-eq_of_lt {n = n - 1} {m = n} (omega arith)) ∙ ap (λ k. k % n) (omega arith);
  slots = tt;
}
  where
    last : (n + 2 ^ 32 - 1) % 2 ^ 32 ≡ n - 1
    last = omega arith

-- `line` has a slot for each item of the capacity.
pub length-line {ℓ} : (A : Type ℓ) (n : ℕ) → length (create_queue {A = A} n).line ≡ n
unfolding create_queue
length-line A n = length-replicate {A = Option A} n none

module _ {ℓ} {A : Type ℓ} (q : Queue A) where
  back_lt : (xs : List A) → IsQueue q xs → q.back < q.cap
  back_lt xs v = rw v.back_at (mod-lt _ (omega arith))

  -- The index that `append` writes.
  next_back : (xs : List A) → IsQueue q xs → (q.back + 1) % q.cap ≡ (q.front + length xs) % q.cap
  next_back xs v =
      ap (λ b. (b + 1) % q.cap) v.back_at
      ∙ mod-add-mod (q.front + q.size + q.cap - 1) q.cap 1
      ∙ ap (λ n. n % q.cap) (omega arith)
      ∙ add-mod_self (q.front + length xs) q.cap

  unfoldable pub appended : (x : A) → Queue A
  appended x =
      let next = (q.back + 1) % q.cap in
      record q { back = next; line = set q.line next (some x); size = q.size + 1 }

  pub appended-IsQueue :
      (xs : List A) (x : A) → q.size < q.cap → IsQueue q xs → IsQueue (appended x) (xs ++ x ∷ [])
  unfolding appended
  appended-IsQueue xs x lt v = record {
    count = omega (arith, v.count, length-append xs (x ∷ []));
    room = omega arith;
    alloc = omega (arith, v.alloc, length-set q.line ((q.back + 1) % q.cap) (some x));
    small = v.small;
    front_in = v.front_in;
    back_at =
        next_back xs v
        ∙ sym (add-mod_self (q.front + length xs) q.cap)
        ∙ ap (λ n. n % q.cap) (omega (arith, v.count));
    slots =
        Window-set q.line q.cap xs x q.front _ v.alloc v.front_in (omega (arith, v.count))
          (next_back xs v) v.slots;
  }

  pub append_lem :
      (xs : List A) (x : A) → q.size < q.cap → IsQueue q xs → append q x ≡ ok (appended x)
  unfolding append appended
  append_lem xs x lt v =
      let b = back_lt xs v in
      let w = v.alloc in
      let s = v.small in
      let m : (q.back + 1) % 2 ^ 32 ≡ q.back + 1 = omega arith in
      ground (
        arith,
        m,
        store_lem q.line ((q.back + 1) % q.cap) (some x),
        mod-lt (q.back + 1) {m = q.cap} (omega arith),
      )

  unfoldable pub dequeued : Queue A
  dequeued = record q { front = (q.front + 1) % q.cap; size = q.size - 1 }

  pub dequeued-IsQueue : (x : A) (xs : List A) → IsQueue q (x ∷ xs) → IsQueue dequeued xs
  unfolding dequeued
  dequeued-IsQueue x xs v = record {
    count = omega (arith, v.count);
    room = omega (arith, v.room);
    alloc = v.alloc;
    small = v.small;
    front_in = mod-lt (q.front + 1) (omega (arith, v.front_in));
    back_at =
        v.back_at
        ∙ ap (λ n. n % q.cap) (omega (arith, v.count, v.front_in))
        ∙ sym (mod-add-mod (q.front + 1) q.cap (q.size + q.cap - 2))
        ∙ ap (λ n. n % q.cap) (omega (arith, v.count, v.front_in));
    slots = v.slots.1;
  }

  pub dequeue_lem : (x : A) (xs : List A) → IsQueue q (x ∷ xs) → dequeue q ≡ ok (x, dequeued)
  unfolding dequeue dequeued
  dequeue_lem x xs v =
      let c = v.count in
      let f = v.front_in in
      let s = v.small in
      let r = v.room in
      let m : (q.front + 1) % 2 ^ 32 ≡ q.front + 1 = omega arith in
      ground (arith, m, load-get_elem? q.line q.front v.slots.0)

  -- From a well-formed queue that is not empty dequeue takes the oldest item and leaves a well-
  -- formed queue of the others, in order, of the same capacity.
  pub dequeue_front :
      (x : A) (xs : List A)
      → IsQueue q (x ∷ xs)
      → (q' : Queue A) × (dequeue q ≡ ok (x, q')) × IsQueue q' xs × (q'.cap ≡ q.cap)
  unfolding dequeued
  dequeue_front x xs v = (dequeued, dequeue_lem x xs v, dequeued-IsQueue x xs v, refl)

  -- An empty queue stops the program.
  pub dequeue_empty : IsQueue q [] → dequeue q ≡ err exited
  unfolding dequeue
  dequeue_empty v = let c = v.count in ground arith

  pub front_lem : (x : A) (xs : List A) → IsQueue q (x ∷ xs) → front q ≡ ok x
  unfolding front
  front_lem x xs v =
      let c = v.count in
      let f = v.front_in in
      let s = v.small in ground (arith, load-get_elem? q.line q.front v.slots.0)

  -- The index of the newest item.
  last_at :
      (xs : List A) (x : A) → IsQueue q (xs ++ x ∷ []) → q.back ≡ (q.front + length xs) % q.cap
  last_at xs x v =
      v.back_at
      ∙ ap (λ n. n % q.cap) (omega (arith, v.count, length-append xs (x ∷ []), v.front_in))
      ∙ add-mod_self (q.front + length xs) q.cap

  pub back_lem : (xs : List A) (x : A) → IsQueue q (xs ++ x ∷ []) → back q ≡ ok x
  unfolding back
  back_lem xs x v =
      let c = v.count in
      let l = length-append xs (x ∷ []) in
      let s = v.small in
      let b = back_lt (xs ++ x ∷ []) v in
      let at : get_elem? q.line q.back ≡ some (some x) =
        ap (get_elem? q.line) (last_at xs x v)
        ∙ Window-last q.line q.cap q.front xs x v.front_in v.slots in
      ground (arith, load-get_elem? q.line q.back at)

  pub back_empty : IsQueue q [] → back q ≡ err exited
  unfolding back
  back_empty v = let c = v.count in ground arith

  pub is_empty_lem : (xs : List A) → IsQueue q xs → is_empty q ≡ (length xs == 0)
  unfolding is_empty
  is_empty_lem xs v = rw v.count
