-- ===== src/Florists/Queue.antt =====
-- The bounded queue of homework-5/solution/source/queue.h. Its struct, `create_queue`, `is_full`,
-- `is_empty` and `dequeue` are those of the server's queue.h, with pointers to clients for items; a full
-- queue stops the program instead of growing.
use cse344_assignments.Base.{
  ◌+◌, ◌<◌, ◌≡◌, refl, sym, ap, ◌∙◌, length-append, ok-injective, false, List, [], ◌∷◌, ◌++◌,
  length, ◌==◌, if◌then◌else◌, Result, ok, err, exited, arith,
}
use cse344_assignments.Server.Queue.{Queue, is_full, append, dequeue}
use cse344_assignments.Server.Queue.Inv.{
  IsQueue, append_lem, appended, appended-IsQueue, dequeue_front, dequeue_empty,
}

module _ {ℓ} {A : Type ℓ} where
  unfoldable pub enqueue : Queue A → A → Result (Queue A)
  unfolding is_full
  enqueue q client = if is_full q then err exited else append q client

module _ {ℓ} {A : Type ℓ} (q : Queue A) (xs : List A) (x : A) (v : IsQueue q xs) where
  -- Below its capacity the queue takes the item at its back.
  pub enqueue_lem :
      length xs < q.cap
      → (q' : Queue A) × (enqueue q x ≡ ok q') × IsQueue q' (xs ++ x ∷ []) × (q'.cap ≡ q.cap)
  unfolding enqueue
  enqueue_lem lt =
      let c = v.count in
      let room : (q.size == q.cap) ≡ false = ground arith in
      (
        appended q x,
        rw room (append_lem q xs x (omega arith) v),
        appended-IsQueue q xs x (omega arith) v,
        unfold appended in refl,
      )

  -- At its capacity it stops the program.
  pub enqueue_full : length xs ≡ q.cap → enqueue q x ≡ err exited
  unfolding enqueue
  enqueue_full full = let c = v.count in ground arith

  -- The size after a call that returned.
  pub enqueue_size : {q' : Queue A} → length xs < q.cap → enqueue q x ≡ ok q' → q'.size ≡ q.size + 1
  enqueue_size lt e =
      let (r, f, w, k) = enqueue_lem lt in
      let same = ok-injective (sym f ∙ e) in
      sym (ap (λ q. q.size) same) ∙ omega (arith, w.count, v.count, length-append xs (x ∷ []))

pub dequeue_size {ℓ} :
    {A : Type ℓ} (q : Queue A) (xs : List A) {x : A} {q' : Queue A}
    → IsQueue q xs
    → dequeue q ≡ ok (x, q')
    → q'.size + 1 ≡ q.size
dequeue_size q [] v e = absurd (cc (e, dequeue_empty q v))
dequeue_size {A} q (y ∷ ys) v e =
    let (r, f, w, k) = dequeue_front q y ys v in
    let same = ok-injective (sym f ∙ e) in
    let size : r.size ≡ _ = ap (λ (c : A × Queue A). c.1.size) same in
    omega (arith, size, w.count, v.count)
