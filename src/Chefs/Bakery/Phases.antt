-- ===== src/Chefs/Bakery/Phases.antt =====
-- What holds in every reachable state of the wholesaler and the chefs of
-- homework-4/solution/source/program.c.
use cse344_assignments.Base.{
  ℕ, zero, suc, ◌+◌, ◌≤◌, ◌≡◌, refl, sym, ap, ◌∙◌, subst, ◌⊎◌, inl, inr, Bool, true, false, some,
  List, [], ◌∷◌, length, length-set, get_or-zeros, replicate, ok, ok-injective, arith,
}
use cse344_assignments.Chefs.{sem_of_ingredients}
use cse344_assignments.Chefs.Bakery.{
  Chef, looping, waiting, woken, taking, preparing, exiting, gone, Wholesaler, reading, delivering,
  posting, awaiting, finishing, last_posting, done, Bakery, chef_number, ingredient_number, IsIndex,
  system_v_sempost, system_v_semwait, init, Step, read, read_end, deliver, post, obtain, finish,
  last_post, enter, leave, wake, stay, break, take_delivery, post_dessert, wake_others, exit, Reach,
  start, later,
}
use cse344_assignments.Chefs.Bakery.Semaphores.{sum, sempost_lem, semwait_lem}
use cse344_assignments.Chefs.Bakery.Pairs.{first, second, IsIndex-pair}
use cse344_assignments.Chefs.Bakery.Weights.{weigh-replicate, busy_one, held, Each}
use cse344_assignments.Chefs.Bakery.Files.{IsFile}
use cse344_assignments.Chefs.Bakery.Delivery.{IsEarlyChef, IsEarly, IsLoaded, live_of}
use cse344_assignments.Chefs.Bakery.Early.{
  enter-IsEarly, stay-IsEarly, wake-IsEarly, take_delivery-IsEarly, post_dessert-IsEarly,
}
use cse344_assignments.Chefs.Bakery.Wholesale.{
  IsSized, read-IsSupplyOf, read_end-lt, read-IsEarly, read_end-IsEarly, deliver-IsEarly,
  post-IsEarly, obtain-IsEarly,
}
use cse344_assignments.Chefs.Bakery.Late.{
  IsLate, finish-IsLate, leave-IsLate, break-IsLate, exit-IsLate, wake-IsLate, wake_others-IsLate,
  last_post-IsLate,
}

length-sempost :
    (sems index : List ℕ) {ups : List ℕ}
    → (x : ℕ) × (y : ℕ) × (index ≡ x ∷ y ∷ [])
    → system_v_sempost sems index ≡ ok ups
    → length ups ≡ length sems
length-sempost sems index {ups} (x, y, p) e =
    (sempost_lem sems x y (subst (λ l. system_v_sempost sems l ≡ ok ups) p e)).1

two_of : (i : ℕ) {index : List ℕ} → IsIndex i index → (x : ℕ) × (y : ℕ) × (index ≡ x ∷ y ∷ [])
two_of i is = (first i, second i, (IsIndex-pair i is).1)

Step-IsSized : {s t : Bakery} → Step s t → IsSized s → IsSized t
Step-IsSized {s} (read {mask} {fd} {index} w e ne f) z =
    let (n, (lt, g, pos, at), rest, len) = read-IsSupplyOf s.fd fd mask z.lines e ne in
    let (x, y, shape) = z.two in
    record {
      four = z.four;
      few = z.few;
      two = (first n, second n, ok-injective (sym f ∙ ap (sem_of_ingredients mask) shape ∙ at x y));
      lines = rest;
    }
Step-IsSized {s} (read_end {fd} w e) z = record {
  four = z.four;
  few = z.few;
  two = z.two;
  lines = subst IsFile (sym (read_end-lt s.fd fd z.lines e).1) (IsFile.over (omega arith));
}
Step-IsSized (deliver w) z = record { four = z.four; few = z.few; two = z.two; lines = z.lines }
Step-IsSized {s} (post w e) z = record {
  four = length-sempost s.sems s.sem_index z.two e ∙ z.four;
  few = z.few;
  two = z.two;
  lines = z.lines;
}
Step-IsSized (obtain w pos) z = record { four = z.four; few = z.few; two = z.two; lines = z.lines }
Step-IsSized (finish w) z = record { four = z.four; few = z.few; two = z.two; lines = z.lines }
Step-IsSized {s} (last_post w e) z = record {
  four = length-sempost s.sems s.sem_index z.two e ∙ z.four;
  few = z.few;
  two = z.two;
  lines = z.lines;
}
Step-IsSized {s} (wake i {index} {sems} at is e) z =
    let (lt, p) = IsIndex-pair i is in
    let same =
      (semwait_lem s.sems (first i) (second i)
        (subst (λ l. system_v_semwait s.sems l ≡ ok (some sems)) p e)).1 in
    record {
      four = sym same ∙ z.four;
      few = length-set s.chefs i woken ∙ z.few;
      two = z.two;
      lines = z.lines;
    }
Step-IsSized {s} (wake_others i n {index} at lt is e) z = record {
  four = length-sempost s.sems index (two_of n is) e ∙ z.four;
  few = length-set s.chefs i (exiting (n + 1)) ∙ z.few;
  two = z.two;
  lines = z.lines;
}
Step-IsSized {s} (enter i at f) z = record {
  four = z.four;
  few = length-set s.chefs i waiting ∙ z.few;
  two = z.two;
  lines = z.lines;
}
Step-IsSized {s} (leave i at f) z = record {
  four = z.four;
  few = length-set s.chefs i (exiting 0) ∙ z.few;
  two = z.two;
  lines = z.lines;
}
Step-IsSized {s} (stay i at f) z = record {
  four = z.four;
  few = length-set s.chefs i taking ∙ z.few;
  two = z.two;
  lines = z.lines;
}
Step-IsSized {s} (break i at f) z = record {
  four = z.four;
  few = length-set s.chefs i (exiting 0) ∙ z.few;
  two = z.two;
  lines = z.lines;
}
Step-IsSized {s} (take_delivery i at) z = record {
  four = z.four;
  few = length-set s.chefs i preparing ∙ z.few;
  two = z.two;
  lines = z.lines;
}
Step-IsSized {s} (post_dessert i at) z = record {
  four = z.four;
  few = length-set s.chefs i looping ∙ z.few;
  two = z.two;
  lines = z.lines;
}
Step-IsSized {s} (exit i n at le) z = record {
  four = z.four;
  few = length-set s.chefs i gone ∙ z.few;
  two = z.two;
  lines = z.lines;
}

true-ne-false : {b : Bool} → b ≡ true → ¬ (b ≡ false)
true-ne-false e f = cc

-- The wholesaler does not get to its end before it sets `finished`, and is at its end after that.
early_end : {s : Bakery} → IsEarly s → ¬ (s.wholesaler ≡ last_posting)
early_end {s} v w = subst (λ w. IsLoaded w s.store (live_of s) s.sem_index s.fd) w v.loaded

late_end :
    {s : Bakery} (w : Wholesaler) → IsLate s → s.wholesaler ≡ w → (w ≡ last_posting) ⊎ (w ≡ done)
late_end w v e = elim v.ended [ inl p ↦ inl (sym e ∙ p) | inr p ↦ inr (sym e ∙ p) ]

not_late :
    (w : Wholesaler) → ¬ (w ≡ last_posting) → ¬ (w ≡ done) → ¬ ((w ≡ last_posting) ⊎ (w ≡ done))
not_late w p q (inl e) = p e
not_late w p q (inr e) = q e

Step-IsEarly : {s t : Bakery} → Step s t → IsSized s → IsEarly s → IsEarly t ⊎ IsLate t
Step-IsEarly {s} (read w e ne f) z v = inl (read-IsEarly s v z w e ne f)
Step-IsEarly {s} (read_end w e) z v = inl (read_end-IsEarly s v z w e)
Step-IsEarly {s} (deliver w) z v = inl (deliver-IsEarly s v z w)
Step-IsEarly {s} (post w e) z v = inl (post-IsEarly s v z w e)
Step-IsEarly {s} (obtain w pos) z v = inl (obtain-IsEarly s v z w pos)
Step-IsEarly {s} (finish w) z v = inr (finish-IsLate s v w)
Step-IsEarly {s} (last_post w e) z v = absurd (early_end v w)
Step-IsEarly {s} (enter i at f) z v = inl (enter-IsEarly s v z.few i at)
Step-IsEarly {s} (leave i at f) z v = absurd (true-ne-false f v.unfinished)
Step-IsEarly {s} (wake i at is e) z v = inl (wake-IsEarly s v z.few i at is e)
Step-IsEarly {s} (stay i at f) z v = inl (stay-IsEarly s v z.few i at)
Step-IsEarly {s} (break i at f) z v = absurd (true-ne-false f v.unfinished)
Step-IsEarly {s} (take_delivery i at) z v = inl (take_delivery-IsEarly s v z.few i at)
Step-IsEarly {s} (post_dessert i at) z v = inl (post_dessert-IsEarly s v z.few i at)
Step-IsEarly {s} (wake_others i n at lt is e) z v = absurd (v.places i (exiting n) at)
Step-IsEarly {s} (exit i n at le) z v = absurd (v.places i (exiting n) at)

Step-IsLate : {s t : Bakery} → Step s t → IsLate s → IsLate t
Step-IsLate (read w e ne f) v = absurd (not_late reading (λ p. cc) (λ p. cc) (late_end reading v w))
Step-IsLate (read_end w e) v = absurd (not_late reading (λ p. cc) (λ p. cc) (late_end reading v w))
Step-IsLate (deliver {mask} w) v =
    absurd (not_late (delivering mask) (λ p. cc) (λ p. cc) (late_end (delivering mask) v w))
Step-IsLate (post w e) v = absurd (not_late posting (λ p. cc) (λ p. cc) (late_end posting v w))
Step-IsLate (obtain w pos) v =
    absurd (not_late awaiting (λ p. cc) (λ p. cc) (late_end awaiting v w))
Step-IsLate (finish w) v = absurd (not_late finishing (λ p. cc) (λ p. cc) (late_end finishing v w))
Step-IsLate {s} (last_post w e) v = last_post-IsLate s v w e
Step-IsLate (enter i at f) v = absurd (true-ne-false v.is_finished f)
Step-IsLate {s} (leave i at f) v = leave-IsLate s v i at
Step-IsLate {s} (wake i at is e) v = wake-IsLate s v i at is e
Step-IsLate (stay i at f) v = absurd (true-ne-false v.is_finished f)
Step-IsLate {s} (break i at f) v = break-IsLate s v i at
Step-IsLate (take_delivery i at) v = absurd (v.places i taking at)
Step-IsLate (post_dessert i at) v = absurd (v.places i preparing at)
Step-IsLate {s} (wake_others i n at lt is e) v = wake_others-IsLate s v i n at is e
Step-IsLate {s} (exit i n at le) v = exit-IsLate s v i n at le

-- A state before or after the wholesaler has set `finished`.
abbrev pub IsBakery : Bakery → Type 0
IsBakery s = IsSized s × (IsEarly s ⊎ IsLate s)

pub Each-replicate :
    (P : ℕ → Chef → Type 0) (n : ℕ) (c : Chef) → ((i : ℕ) → P i c) → Each P (replicate n c)
Each-replicate P zero c p i b e = absurd (ground arith)
Each-replicate P (suc n) c p zero b e = let same : c ≡ b = ground arith in subst (P 0) same (p 0)
Each-replicate P (suc n) c p (suc i) b e =
    Each-replicate (λ j. P (suc j)) n c (λ j. p (suc j)) i b e

init-IsBakery :
    (bytes : List ℕ) (x y z : ℕ) → IsFile bytes → 3 ≤ length bytes → IsBakery (init bytes x y z)
unfolding init sum
init-IsBakery bytes x y z f more = (
  record { four = refl; few = refl; two = (x, y, refl); lines = f },
  inl (record {
    unfinished = refl;
    places = Each-replicate IsEarlyChef chef_number looping (λ i. tt);
    within = λ k. omega (
      arith,
      get_or-zeros ingredient_number k,
      weigh-replicate (held k) 0 chef_number looping (λ i. refl),
    );
    total = omega (arith, weigh-replicate busy_one 0 chef_number looping (λ i. refl));
    loaded = inr more;
  }),
)

module _ {bytes : List ℕ} {x y z : ℕ} (file : IsFile bytes) (more : 3 ≤ length bytes) where
  pub Reach-IsBakery : {s : Bakery} → Reach bytes x y z s → IsBakery s
  Reach-IsBakery start = init-IsBakery bytes x y z file more
  Reach-IsBakery (later r st) =
      let (z, phase) = Reach-IsBakery r in
      let both : IsEarly _ ⊎ IsLate _ = elim phase [
        | inl v ↦ Step-IsEarly st z v
        | inr v ↦ inr (Step-IsLate st v)
      ] in
      (Step-IsSized st z, both)
