-- ===== src/Chefs/Bakery/Ends.antt =====
-- The wholesaler and the chefs of homework-4/solution/source/program.c come to their end.
use cse344_assignments.Base.{
  ℕ, ◌+◌, ◌-◌, ◌*◌, ◌≤◌, ◌<◌, ◌≡◌, ap, subst, some, List, length, ok, arith,
}
use cse344_assignments.Chefs.Bakery.{
  Chef, looping, waiting, woken, taking, preparing, exiting, gone, Bakery, chef_number, Wholesaler,
  Step, read, read_end, deliver, post, obtain, finish, last_post, reading, delivering, posting,
  awaiting, finishing, last_posting, done, Reach, enter, leave, wake, stay, break, take_delivery,
  post_dessert, wake_others, exit, system_v_sempost, system_v_semwait,
}
use cse344_assignments.Chefs.Bakery.Semaphores.{sum, sempost_lem, semwait_lem}
use cse344_assignments.Chefs.Bakery.Pairs.{pair, first, second, IsIndex-pair}
use cse344_assignments.Chefs.Bakery.Weights.{weigh, weigh-set}
use cse344_assignments.Chefs.Bakery.Files.{IsFile}
use cse344_assignments.Chefs.Bakery.Wholesale.{IsSized, read-IsSupplyOf, read_end-lt}
use cse344_assignments.Chefs.Bakery.Phases.{Reach-IsBakery}

-- What a chef counts for: the steps to its end, and three for each semaphore that it posts; a wake-up
-- is paid for by the two semaphores that it takes.
abbrev left_of : ℕ → Chef → ℕ
left_of i looping = 50
left_of i waiting = 49
left_of i woken = 54
left_of i taking = 53
left_of i preparing = 52
left_of i (exiting n) = 1 + 7 * (chef_number - n)
left_of i gone = 0

abbrev to_do : Wholesaler → ℕ
to_do reading = 9
to_do (delivering mask) = 29
to_do posting = 28
to_do awaiting = 10
to_do finishing = 8
to_do last_posting = 7
to_do done = 0

-- No fewer than the steps that are left; each byte of the file counts for ten, and each semaphore that
-- is up for three.
unfoldable pub measure : Bakery → ℕ
measure s =
    10 * length s.fd + to_do s.wholesaler + 3 * sum s.sems + s.dessert + weigh left_of 0 s.chefs

module _ {s : Bakery} (z : IsSized s) where
  sempost_sum :
      (n : ℕ) {index ups : List ℕ}
      → index ≡ pair n
      → system_v_sempost s.sems index ≡ ok ups
      → sum ups ≡ sum s.sems + 2
  sempost_sum n {index} {ups} p e =
      (sempost_lem s.sems (first n) (second n)
        (subst (λ l. system_v_sempost s.sems l ≡ ok ups) p e)).2

  -- Every step leaves fewer.
  pub step-lt : {t : Bakery} → Step s t → measure t < measure s
  unfolding measure
  step-lt (read {mask} {fd} w e ne f) =
      let (n, of, rest, len) = read-IsSupplyOf s.fd fd mask z.lines e ne in
      omega (arith, len, ap to_do w)
  step-lt (read_end {fd} w e) =
      omega (arith, ap length (read_end-lt s.fd fd z.lines e).1, ap to_do w)
  step-lt (deliver w) = omega (arith, ap to_do w)
  step-lt (post {sems} w e) =
      let (x, y, p) = z.two in
      omega (
        arith,
        ap to_do w,
        (sempost_lem s.sems x y (subst (λ l. system_v_sempost s.sems l ≡ ok sems) p e)).2,
      )
  step-lt (obtain w pos) = omega (arith, ap to_do w, pos)
  step-lt (finish w) = omega (arith, ap to_do w)
  step-lt (last_post {sems} w e) =
      let (x, y, p) = z.two in
      omega (
        arith,
        ap to_do w,
        (sempost_lem s.sems x y (subst (λ l. system_v_sempost s.sems l ≡ ok sems) p e)).2,
      )
  step-lt (enter i at f) = omega (arith, weigh-set left_of s.chefs i waiting at)
  step-lt (leave i at f) = omega (arith, weigh-set left_of s.chefs i (exiting 0) at)
  step-lt (wake i {index} {sems} at is e) =
      let (lt, p) = IsIndex-pair i is in
      let more =
        (semwait_lem s.sems (first i) (second i)
          (subst (λ l. system_v_semwait s.sems l ≡ ok (some sems)) p e)).2 in
      omega (arith, weigh-set left_of s.chefs i woken at, more)
  step-lt (stay i at f) = omega (arith, weigh-set left_of s.chefs i taking at)
  step-lt (break i at f) = omega (arith, weigh-set left_of s.chefs i (exiting 0) at)
  step-lt (take_delivery i at) = omega (arith, weigh-set left_of s.chefs i preparing at)
  step-lt (post_dessert i at) = omega (arith, weigh-set left_of s.chefs i looping at)
  step-lt (wake_others i n at lt is e) =
      let (lt', p) = IsIndex-pair n is in
      omega (arith, weigh-set left_of s.chefs i (exiting (n + 1)) at, sempost_sum n p e, lt)
  step-lt (exit i n at le) = omega (arith, weigh-set left_of s.chefs i gone at)

-- For a supply file of at least one line whose lines name two different ingredients each, every
-- step from a reachable state makes a measure smaller, so that the threads make finitely many
-- steps under any schedule.
pub bakery_ends :
    {bytes : List ℕ} {x y z : ℕ} {s t : Bakery}
    → IsFile bytes
    → 3 ≤ length bytes
    → Reach bytes x y z s
    → Step s t
    → measure t < measure s
bakery_ends file more r st = step-lt (Reach-IsBakery file more r).0 st
