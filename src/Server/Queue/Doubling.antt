-- ===== src/Server/Queue/Doubling.antt =====
-- An `enqueue` of queue.h that returns has kept the queue, whatever its size.
use cse344_assignments.Base.{
  ℕ, zero, suc, ◌*◌, ◌^◌, ◌≤◌, ◌≡◌, sym, ap, ◌∙◌, subst, ◌⊎◌, inl, inr, List, [], ◌∷◌, ◌++◌, length,
  ◌<◌, Bool-cases, ok, err, ok-injective, int_overflow, ◌==◌, arith,
}
use native.Mathlib.Nat.{one-le-pow, pow-zero, pow-succ'}
use cse344_assignments.Server.Queue.{Queue, int_max, enqueue}
use cse344_assignments.Server.Queue.Inv.{IsQueue}
use cse344_assignments.Server.Queue.Enqueue.{
  grown, enqueue_lem, enqueue_within_full, enlarge_overflow,
}

-- The capacities that the server's queues go through: 16 or 1024, doubled, up to 2^30.
abbrev pub IsDoubled : ℕ → Type 0
IsDoubled n = (k : ℕ) × (n * 2 ^ k ≡ 2 ^ 30)

IsDoubled-double : (n : ℕ) → IsDoubled n → (n ≡ 2 ^ 30) ⊎ (IsDoubled (n * 2) × (n * 2 ≤ 2 ^ 30))
IsDoubled-double n (zero, e) = inl (omega (arith, e, ap (λ t. n * t) (pow-zero 2)))
IsDoubled-double n (suc k, e) =
    let f : n * 2 * 2 ^ k ≡ 2 ^ 30 = omega (arith, e, ap (λ t. n * t) (pow-succ' 2 k)) in
    inr ((k, f), omega (arith, f, le_mul_pow (n * 2) k))
  where
    le_mul_pow : (m j : ℕ) → m ≤ m * 2 ^ j
    le_mul_pow m j = let p = one-le-pow j 2 (omega arith) in grind arith

module _ {ℓ} {A : Type ℓ} (q : Queue A) where
  IsDoubled-grown : IsDoubled q.cap → IsDoubled (q.cap * 2) → IsDoubled (grown q)
  unfolding grown
  IsDoubled-grown d d2 = elim (Bool-cases (q.size == q.cap)) [
    | inl full ↦ rw full d2
    | inr room ↦ rw room d
  ]

  -- The last doubling overflows, so the call does not return.
  enqueue_overflow :
      (xs : List A) (x : A)
      → q.size ≡ q.cap
      → q.cap ≡ 2 ^ 30
      → IsQueue q xs
      → enqueue q x ≡ err int_overflow
  unfolding enqueue
  enqueue_overflow [] x full top v = absurd (omega (arith, v.count))
  enqueue_overflow (y ∷ ys) x full top v =
      enqueue_within_full 1 q x full ∙ rw (enlarge_overflow 1 q y ys v top)

  grown_fits :
      (xs : List A) (x : A) {q' : Queue A}
      → IsDoubled q.cap
      → IsQueue q xs
      → enqueue q x ≡ ok q'
      → (grown q ≤ int_max) × IsDoubled (grown q)
  grown_fits xs x d v e = elim (IsDoubled-double q.cap d) [
    | inr (d2, le) ↦ (unfold grown in ground arith, IsDoubled-grown d d2)
    | inl top ↦ elim (Bool-cases (q.size == q.cap)) [
      | inl full ↦ absurd (ground (arith, enqueue_overflow xs x (ground arith) top v))
      | inr room ↦ (unfold grown in ground arith, unfold grown in (rw room d))
    ]
  ]

  -- For a well-formed queue whose capacity divides 2^30 by a power of 2, an enqueue that returns
  -- has added the item at the back, in the capacity that the queue had or, if it was full, twice
  -- that.
  pub enqueue-eq-ok :
      (xs : List A) (x : A) {q' : Queue A}
      → IsDoubled q.cap
      → IsQueue q xs
      → enqueue q x ≡ ok q'
      → IsQueue q' (xs ++ x ∷ []) × IsDoubled q'.cap × (q'.cap ≡ grown q)
  enqueue-eq-ok xs x d v e =
      let (fits, d') = grown_fits xs x d v e in
      let (r, f, w, k) = enqueue_lem q xs x fits v in
      let p = ok-injective (sym f ∙ e) in
      subst (λ q'. IsQueue q' (xs ++ x ∷ []) × IsDoubled q'.cap × (q'.cap ≡ grown q)) p
        (w, rw k d', k)

  -- For a well-formed queue of fewer than 2^30 items whose capacity divides 2^30 by a power of 2,
  -- enqueue returns.
  pub enqueue_returns :
      (xs : List A) (x : A)
      → IsDoubled q.cap
      → IsQueue q xs
      → length xs < 2 ^ 30
      → (q' : Queue A) × (enqueue q x ≡ ok q')
  enqueue_returns xs x d v lt =
      let (r, f, w, k) = enqueue_lem q xs x (fits (IsDoubled-double q.cap d)) v in (r, f)
    where
      fits : (q.cap ≡ 2 ^ 30) ⊎ (IsDoubled (q.cap * 2) × (q.cap * 2 ≤ 2 ^ 30)) → grown q ≤ int_max
      fits (inl top) = unfold grown in (let c = v.count in ground arith)
      fits (inr twice) = unfold grown in (let le = twice.1 in ground arith)
