-- ===== src/Server/Queue/Enqueue.antt =====
-- `enqueue` and `enlarge` of queue.h on the list that a queue holds.
use cse344_assignments.Base.{
  ℕ, zero, suc, ◌+◌, ◌-◌, ◌*◌, ◌%◌, ◌^◌, ◌≤◌, ◌<◌, ◌≡◌, refl, ap, ap₂, ◌∙◌, subst, inl, inr, List,
  [], ◌∷◌, ◌++◌, length, length-append, Bool-cases, ok, err, int_overflow, ◌>>=◌, ◌==◌,
  if◌then◌else◌, arith,
}
use mathlib.Core.List.{append-nil, append_assoc}
use cse344_assignments.Server.Queue.{
  Queue, int_max, create_queue, is_full, is_empty, append, move_all, enlarge, enqueue_within,
  enqueue,
}
use cse344_assignments.Server.Queue.Inv.{
  IsQueue, create_queue-IsQueue, appended, append_lem, appended-IsQueue, dequeued, dequeue_lem,
  dequeued-IsQueue,
}

cap-create_queue {ℓ} : (A : Type ℓ) (n : ℕ) → (create_queue {A = A} n).cap ≡ n
unfolding create_queue
cap-create_queue A n = refl

size-create_queue {ℓ} : (A : Type ℓ) (n : ℕ) → (create_queue {A = A} n).size ≡ 0
unfolding create_queue
size-create_queue A n = refl

module _ {ℓ} {A : Type ℓ} where
  cap-appended : (q : Queue A) (x : A) → (appended q x).cap ≡ q.cap
  unfolding appended
  cap-appended q x = refl

  -- With room `enqueue` does not enlarge, at any depth.
  enqueue_within_room :
      (d : ℕ) (q : Queue A) (x : A) → q.size < q.cap → enqueue_within d q x ≡ append q x
  unfolding enqueue_within is_full
  enqueue_within_room zero q x lt = ground arith
  enqueue_within_room (suc d) q x lt = ground arith

  pub enqueue_within_full :
      (d : ℕ) (q : Queue A) (x : A)
      → q.size ≡ q.cap
      → enqueue_within (suc d) q x ≡ (enlarge (enqueue_within d) q >>= λ q'. append q' x)
  unfolding enqueue_within is_full
  enqueue_within_full d q x e = ground arith

  -- The loop of `enlarge` moves every item, in order, while there is room.
  move_all_lem :
      (d : ℕ) (ys xs : List A) (old new : Queue A)
      → IsQueue old ys
      → IsQueue new xs
      → length xs + length ys ≤ new.cap
      → (q : Queue A) × (move_all (enqueue_within d) (length ys) old new ≡ ok q)
        × IsQueue q (xs ++ ys)
        × (q.cap ≡ new.cap)
  unfolding move_all is_empty
  move_all_lem d [] xs old new v w room =
      (new, let c = v.count in ground arith, rw append-nil w, refl)
  move_all_lem d (y ∷ ys) xs old new v w room =
      let c = v.count in
      let lt : new.size < new.cap = omega (arith, w.count) in
      let (q, e, h, k) =
        move_all_lem d ys (xs ++ y ∷ []) (dequeued old) (appended new y)
          (dequeued-IsQueue old y ys v) (appended-IsQueue new xs y lt w)
          (omega (arith, length-append {ℓ} xs (y ∷ []), cap-appended new y)) in
      (
        q,
        ground (
          arith,
          dequeue_lem old y ys v,
          enqueue_within_room d new y lt,
          append_lem new xs y lt w,
          e,
        ),
        subst (IsQueue q) (append_assoc xs (y ∷ []) ys) h,
        k ∙ cap-appended new y,
      )

  -- `enlarge` keeps the items and doubles the capacity.
  pub enlarge_lem :
      (d : ℕ) (q : Queue A) (xs : List A)
      → IsQueue q xs
      → q.cap * 2 ≤ int_max
      → (q' : Queue A) × (enlarge (enqueue_within d) q ≡ ok q')
        × IsQueue q' xs
        × (q'.cap ≡ q.cap * 2)
  unfolding enlarge
  enlarge_lem d q xs v small =
      let m : q.cap * 2 % 2 ^ 32 ≡ q.cap * 2 = omega arith in
      let (q', e, h, k) =
        move_all_lem d xs [] q (create_queue (q.cap * 2)) v
          (create_queue-IsQueue (q.cap * 2) (omega (arith, v.front_in)) small)
          (omega (arith, cap-create_queue A (q.cap * 2), v.count, v.room)) in
      (
        q',
        ap₂ (λ n c. move_all (enqueue_within d) n q (create_queue c)) v.count m ∙ e,
        h,
        k ∙ cap-create_queue A (q.cap * 2),
      )

  -- The capacity that `enqueue` leaves.
  unfoldable pub grown : Queue A → ℕ
  grown q = if q.size == q.cap then q.cap * 2 else q.cap

  pub enqueue_room :
      (q : Queue A) (xs : List A) (x : A)
      → q.size < q.cap
      → IsQueue q xs
      → enqueue q x ≡ ok (appended q x)
  unfolding enqueue
  enqueue_room q xs x lt v = enqueue_within_room 2 q x lt ∙ append_lem q xs x lt v

  -- `enqueue` adds the item at the back, while the capacity that it needs is an `int`.
  pub enqueue_lem :
      (q : Queue A) (xs : List A) (x : A)
      → grown q ≤ int_max
      → IsQueue q xs
      → (q' : Queue A) × (enqueue q x ≡ ok q') × IsQueue q' (xs ++ x ∷ []) × (q'.cap ≡ grown q)
  unfolding grown
  enqueue_lem q xs x small v = elim (Bool-cases (q.size == q.cap)) [
    | inr room ↦
        let r = v.room in
        let lt : q.size < q.cap = ground arith in
        (
          appended q x,
          enqueue_room q xs x lt v,
          appended-IsQueue q xs x lt v,
          rw room (cap-appended q x),
        )
    | inl full ↦
        let e : q.size ≡ q.cap = ground arith in
        let (q', h, w, k) = enlarge_lem 1 q xs v (ground arith) in
        let lt : q'.size < q'.cap = omega (arith, w.count, v.count, v.front_in) in
        (
          appended q' x,
          unfold enqueue in (enqueue_within_full 1 q x e ∙ rw h (append_lem q' xs x lt w)),
          appended-IsQueue q' xs x lt w,
          cap-appended q' x ∙ rw full k,
        )
  ]

  -- A capacity that is doubled past INT_MAX ends in an overflow of `back + 1`.
  append_overflow : (n : ℕ) (x : A) → n ≡ 2 ^ 31 → append (create_queue n) x ≡ err int_overflow
  unfolding append create_queue
  append_overflow n x e =
      let last : (n + 2 ^ 32 - 1) % 2 ^ 32 ≡ int_max = omega arith in ground arith

  move_all_overflow :
      (d k n : ℕ) (q : Queue A) (x : A) (xs : List A)
      → n ≡ 2 ^ 31
      → IsQueue q (x ∷ xs)
      → move_all (enqueue_within d) (suc k) q (create_queue n) ≡ err int_overflow
  unfolding move_all is_empty
  move_all_overflow d k n q x xs e v =
      let c = v.count in
      let empty = size-create_queue A n in
      let room = cap-create_queue A n in
      ground (
        arith,
        dequeue_lem q x xs v,
        enqueue_within_room d (create_queue n) x (omega arith),
        append_overflow n x e,
      )

  pub enlarge_overflow :
      (d : ℕ) (q : Queue A) (x : A) (xs : List A)
      → IsQueue q (x ∷ xs)
      → q.cap ≡ 2 ^ 30
      → enlarge (enqueue_within d) q ≡ err int_overflow
  unfolding enlarge
  enlarge_overflow d q x xs v e =
      ap (λ n. move_all (enqueue_within d) n q (create_queue (q.cap * 2 % 2 ^ 32))) v.count
      ∙ move_all_overflow d (length xs) (q.cap * 2 % 2 ^ 32) q x xs (omega arith) v

  -- The first item of a new queue.
  pub enqueue-create_queue :
      (n : ℕ) (x : A)
      → 0 < n
      → n ≤ int_max
      → (q : Queue A) × (enqueue (create_queue n) x ≡ ok q) × IsQueue q (x ∷ []) × (q.cap ≡ n)
  enqueue-create_queue n x pos small =
      let v = create_queue-IsQueue {A = A} n pos small in
      let lt : (create_queue {A = A} n).size < (create_queue {A = A} n).cap =
        omega (arith, size-create_queue A n, cap-create_queue A n) in
      (
        appended (create_queue n) x,
        enqueue_room (create_queue n) [] x lt v,
        appended-IsQueue (create_queue n) [] x lt v,
        cap-appended (create_queue n) x ∙ cap-create_queue A n,
      )
