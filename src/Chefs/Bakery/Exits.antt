-- ===== src/Chefs/Bakery/Exits.antt =====
-- The chefs of homework-4/solution/source/program.c do not wait in vain once the wholesaler has set
-- `finished`.
use cse344_assignments.Base.{
  ℕ, suc, ◌+◌, ◌≤◌, ◌≡◌, ap, ◌∙◌, subst, ◌⊎◌, inl, inr, some, List, [], ◌∷◌, length, get_elem?,
  arith,
}
use cse344_assignments.Chefs.Bakery.{
  Chef, looping, waiting, woken, taking, preparing, exiting, gone, Bakery, chef_number, last_post,
  done, Reach,
}
use cse344_assignments.Chefs.Bakery.Semaphores.{hits}
use cse344_assignments.Chefs.Bakery.Pairs.{pair}
use cse344_assignments.Chefs.Bakery.Weights.{
  weigh, weigh_one, weigh_zero, posts, given, taken, Each,
}
use cse344_assignments.Chefs.Bakery.Files.{IsFile}
use cse344_assignments.Chefs.Bakery.Delivery.{IsPaired}
use cse344_assignments.Chefs.Bakery.Early.{lt_of_at}
use cse344_assignments.Chefs.Bakery.Wholesale.{IsSized}
use cse344_assignments.Chefs.Bakery.Late.{IsLate, last}
use cse344_assignments.Chefs.Bakery.Phases.{Reach-IsBakery}
use cse344_assignments.Chefs.Bakery.Moves.{
  CanStep, IsIdle, active_steps, wakes, find_active, find_gone, find_waiting,
}
use cse344_assignments.Chefs.Bakery.Progress.{posts_pair, chef_at, early-CanStep}

-- The wholesaler is done, and every chef is gone.
abbrev pub IsOver : Bakery → Type 0
IsOver s = (s.wholesaler ≡ done) × Each (λ i c. c ≡ gone) s.chefs

-- What the chefs from number `j` on that still wait want of semaphore `k`.
abbrev wanted : ℕ → ℕ → Chef → ℕ
wanted k i looping = 0
wanted k i waiting = hits k (pair i)
wanted k i woken = 0
wanted k i taking = 0
wanted k i preparing = 0
wanted k i (exiting n) = 0
wanted k i gone = 0

taken-wanted : (k i : ℕ) (c : Chef) → taken k i c + wanted k i c ≤ hits k (pair i)
taken-wanted k i looping = omega arith
taken-wanted k i waiting = omega arith
taken-wanted k i woken = omega arith
taken-wanted k i taking = omega arith
taken-wanted k i preparing = omega arith
taken-wanted k i (exiting n) = omega arith
taken-wanted k i gone = omega arith

-- All that the chefs can take is what one of them gives at its exit.
taken-le-posts :
    (k j : ℕ) (cs : List Chef)
    → weigh (taken k) j cs + weigh (wanted k) j cs + posts k j ≤ posts k (j + length cs)
unfolding weigh
taken-le-posts k j [] = let e : j + 0 ≡ j = omega arith in rw e (omega arith)
taken-le-posts k j (c ∷ cs) =
    let e : j + suc (length cs) ≡ suc j + length cs = omega arith in
    rw e (omega (arith, taken-wanted k j c, taken-le-posts k (suc j) cs))

idle-given : (k i : ℕ) (c : Chef) → c ≡ waiting → given k i c ≡ 0
idle-given k i c e = ap (given k i) e

idle-taken : (k i : ℕ) (c : Chef) → c ≡ waiting → taken k i c ≡ 0
idle-taken k i c e = ap (taken k i) e

module _ (s : Bakery) (z : IsSized s) (v : IsLate s) where
  -- With a chef gone every semaphore holds what a waiting chef wants.
  gone_wakes :
      (i j : ℕ) → get_elem? s.chefs i ≡ some waiting → get_elem? s.chefs j ≡ some gone → CanStep s
  gone_wakes i j at left =
      wakes s z.four i (omega (arith, lt_of_at s.chefs i at, z.few)) at (λ k lt. omega (
        arith,
        v.enough k,
        weigh_one (given k) s.chefs j left,
        weigh_one (wanted k) s.chefs i at,
        bound k,
      ))
    where
      bound : (k : ℕ) → weigh (taken k) 0 s.chefs + weigh (wanted k) 0 s.chefs ≤ posts k chef_number
      bound k =
          let e : 0 + length s.chefs ≡ chef_number = omega (arith, z.few) in
          let le =
            subst
              (λ n. weigh (taken k) 0 s.chefs + weigh (wanted k) 0 s.chefs + posts k 0 ≤ posts k n)
              e (taken-le-posts k 0 s.chefs) in
          omega (arith, le)

  -- When all of them wait, the last post of the wholesaler wakes one up.
  all_waiting_wakes : s.wholesaler ≡ done → Each (λ i c. c ≡ waiting) s.chefs → CanStep s
  all_waiting_wakes w all = by v.paired
    where
      by : IsPaired s.sem_index → CanStep s
      by (n, lt, p) =
          let (c, at) = chef_at s.chefs n (omega (arith, z.few)) in
          wakes s z.four n lt (at ∙ ap some (all n c at)) (λ k in_range. omega (
            arith,
            v.enough k,
            ap (λ w. last w (hits k s.sem_index)) w,
            ap (hits k) p,
            weigh_zero (taken k) s.chefs (λ i c at. idle-taken k i c (all i c at)),
          ))

  idle_steps : s.wholesaler ≡ done → Each IsIdle s.chefs → IsOver s ⊎ CanStep s
  idle_steps w idle = elim (find_gone s.chefs idle) [
    | inr all ↦ inr (all_waiting_wakes w all)
    | inl (j, left) ↦ elim (find_waiting s.chefs idle) [
      | inl (i, at) ↦ inr (gone_wakes i j at left)
      | inr over ↦ inl (w, over)
    ]
  ]

  pub late-CanStep : IsOver s ⊎ CanStep s
  late-CanStep = elim v.ended [
    | inl w ↦ let (ups, e) = posts_pair s z v.paired in inr (_, last_post w e)
    | inr w ↦ elim (find_active s.chefs) [
      | inl (i, c, at, a) ↦ inr (active_steps s z.four i c at a)
      | inr idle ↦ idle_steps w idle
    ]
  ]

-- For a supply file of at least one line whose lines name two different ingredients each, in every
-- reachable state either the wholesaler is done and every chef is gone, or some thread can make a
-- step: no chef is left waiting in vain.
pub bakery_progress :
    {bytes : List ℕ} {x y z : ℕ} {s : Bakery}
    → IsFile bytes
    → 3 ≤ length bytes
    → Reach bytes x y z s
    → IsOver s ⊎ CanStep s
bakery_progress {s = s} file more r =
    let (z, phase) = Reach-IsBakery file more r in
    elim phase [ inl v ↦ inr (early-CanStep s z v) | inr v ↦ late-CanStep s z v ]
