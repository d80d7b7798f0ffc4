-- ===== src/Chefs/Bakery/Late.antt =====
-- The steps of homework-4/solution/source/program.c after the wholesaler has set `finished`.
use cse344_assignments.Base.{
  ℕ, zero, suc, ◌+◌, ◌-◌, ◌≤◌, ◌≡◌, refl, ap, subst, ◌⊎◌, inl, inr, true, some, List, get_or,
  get_elem?, set, ok, arith,
}
use cse344_assignments.Chefs.Bakery.{
  Chef, looping, waiting, woken, taking, preparing, exiting, gone, Wholesaler, reading, delivering,
  posting, awaiting, finishing, last_posting, done, Bakery, chef_number, system_v_sempost,
  system_v_semwait, IsIndex, chef_to,
}
use cse344_assignments.Chefs.Bakery.Semaphores.{hits, Ups, sempost_lem, semwait_lem}
use cse344_assignments.Chefs.Bakery.Pairs.{pair, first, second, IsIndex-pair}
use cse344_assignments.Chefs.Bakery.Weights.{
  weigh, weigh-set, weigh_one, weigh_zero, busy_one, posts, given, taken, Each, Each-set,
}
use cse344_assignments.Chefs.Bakery.Delivery.{
  IsEarlyChef, due, IsPaired, IsLoaded, live_of, IsEarly,
}

-- A chef after the end has no delivery.
abbrev pub IsLateChef : ℕ → Chef → Type 0
IsLateChef i looping = Unit
IsLateChef i waiting = Unit
IsLateChef i woken = Unit
IsLateChef i taking = ⊥
IsLateChef i preparing = ⊥
IsLateChef i (exiting n) = Unit
IsLateChef i gone = Unit

-- The last post, once it is made.
abbrev pub last : Wholesaler → ℕ → ℕ
last reading h = 0
last (delivering mask) h = 0
last posting h = 0
last awaiting h = 0
last finishing h = 0
last last_posting h = 0
last done h = h

-- No more is missing from a semaphore than the chefs have taken since.
pub record IsLate (s : Bakery) : Type 0 where
  pub is_finished : s.finished ≡ true
  pub ended : (s.wholesaler ≡ last_posting) ⊎ (s.wholesaler ≡ done)
  pub paired : IsPaired s.sem_index
  pub places : Each IsLateChef s.chefs
  pub enough :
      (k : ℕ)
      → last s.wholesaler (hits k s.sem_index) + weigh (given k) 0 s.chefs
        ≤ get_or s.sems k 0 + weigh (taken k) 0 s.chefs

posts_mono : (k n d : ℕ) → posts k n ≤ posts k (n + d)
posts_mono k n zero = ground arith
posts_mono k n (suc d) =
    let e : n + suc d ≡ suc (n + d) = omega arith in rw e (omega (arith, posts_mono k n d))

pub finish-IsLate :
    (s : Bakery)
    → IsEarly s
    → s.wholesaler ≡ finishing
    → IsLate (record s { finished = true; wholesaler = last_posting })
finish-IsLate s v w = record {
  is_finished = refl;
  ended = inl refl;
  paired = now;
  places = λ i c at.
      place i c (v.places i c at) (omega (arith, none_busy, weigh_one busy_one s.chefs i at));
  enough =
      λ k. omega (arith, weigh_zero (given k) s.chefs (λ i c at. none k i c (v.places i c at)));
}
  where
    now : IsLoaded finishing s.store (live_of s) s.sem_index s.fd
    now = subst (λ w. IsLoaded w s.store (live_of s) s.sem_index s.fd) w v.loaded

    none_busy : weigh busy_one 0 s.chefs ≡ 0
    none_busy =
        let zero_due : due s.wholesaler 2 ≡ 0 = ap (λ w. due w 2) w in
        omega (arith, v.total, zero_due)

    place : (i : ℕ) (c : Chef) → IsEarlyChef i c → busy_one i c ≤ 0 → IsLateChef i c
    place i looping p b = tt
    place i waiting p b = tt
    place i woken p b = tt
    place i taking p b = absurd (omega arith)
    place i preparing p b = absurd (omega arith)
    place i (exiting n) p b = tt
    place i gone p b = tt

    none : (k i : ℕ) (c : Chef) → IsEarlyChef i c → given k i c ≡ 0
    none k i looping p = refl
    none k i waiting p = refl
    none k i woken p = refl
    none k i taking p = refl
    none k i preparing p = refl
    none k i (exiting n) p = elim p [ ]
    none k i gone p = elim p [ ]

module _ (s : Bakery) (v : IsLate s) where
  -- A step of a chef that takes or gives nothing.
  move-IsLate :
      (i : ℕ) {c : Chef} (c' : Chef)
      → get_elem? s.chefs i ≡ some c
      → IsLateChef i c'
      → ((k : ℕ) → given k i c' ≤ given k i c)
      → ((k : ℕ) → taken k i c ≤ taken k i c')
      → IsLate (chef_to s i c')
  move-IsLate i c' at p gives takes = record {
    is_finished = v.is_finished;
    ended = v.ended;
    paired = v.paired;
    places = Each-set IsLateChef s.chefs i c' v.places p;
    enough = λ k. omega (
      arith,
      v.enough k,
      weigh-set (given k) s.chefs i c' at,
      weigh-set (taken k) s.chefs i c' at,
      gives k,
      takes k,
    );
  }

  pub leave-IsLate : (i : ℕ) → get_elem? s.chefs i ≡ some looping → IsLate (chef_to s i (exiting 0))
  leave-IsLate i at = move-IsLate i (exiting 0) at tt (λ k. omega arith) (λ k. omega arith)

  pub break-IsLate : (i : ℕ) → get_elem? s.chefs i ≡ some woken → IsLate (chef_to s i (exiting 0))
  break-IsLate i at = move-IsLate i (exiting 0) at tt (λ k. omega arith) (λ k. omega arith)

  pub exit-IsLate :
      (i n : ℕ)
      → get_elem? s.chefs i ≡ some (exiting n)
      → chef_number ≤ n
      → IsLate (chef_to s i gone)
  exit-IsLate i n at le = move-IsLate i gone at tt less (λ k. omega arith)
    where
      less : (k : ℕ) → posts k chef_number ≤ posts k n
      less k =
          let e : chef_number + (n - chef_number) ≡ n = omega arith in
          subst (λ n. posts k chef_number ≤ posts k n) e
            (posts_mono k chef_number (n - chef_number))

  pub wake-IsLate :
      (i : ℕ) {index sems : List ℕ}
      → get_elem? s.chefs i ≡ some waiting
      → IsIndex i index
      → system_v_semwait s.sems index ≡ ok (some sems)
      → IsLate (record s { sems = sems; chefs = set s.chefs i woken })
  wake-IsLate i {index} {sems} at is e =
      let (lt, p) = IsIndex-pair i is in
      let (ups, len, more) : Ups sems (pair i) s.sems =
        semwait_lem s.sems (first i) (second i)
          (subst (λ l. system_v_semwait s.sems l ≡ ok (some sems)) p e) in
      record {
        is_finished = v.is_finished;
        ended = v.ended;
        paired = v.paired;
        places = Each-set IsLateChef s.chefs i woken v.places tt;
        enough = λ k. omega (
          arith,
          v.enough k,
          weigh-set (given k) s.chefs i woken at,
          weigh-set (taken k) s.chefs i woken at,
          ups k,
        );
      }

  pub wake_others-IsLate :
      (i n : ℕ) {index sems : List ℕ}
      → get_elem? s.chefs i ≡ some (exiting n)
      → IsIndex n index
      → system_v_sempost s.sems index ≡ ok sems
      → IsLate (record s { sems = sems; chefs = set s.chefs i (exiting (n + 1)) })
  wake_others-IsLate i n {index} {sems} at is e =
      let (lt, p) = IsIndex-pair n is in
      let (ups, len, more) : Ups s.sems (pair n) sems =
        sempost_lem s.sems (first n) (second n)
          (subst (λ l. system_v_sempost s.sems l ≡ ok sems) p e) in
      record {
        is_finished = v.is_finished;
        ended = v.ended;
        paired = v.paired;
        places = Each-set IsLateChef s.chefs i (exiting (n + 1)) v.places tt;
        enough = λ k. omega (
          arith,
          v.enough k,
          weigh-set (given k) s.chefs i (exiting (n + 1)) at,
          weigh-set (taken k) s.chefs i (exiting (n + 1)) at,
          ups k,
          next k,
        );
      }
    where
      next : (k : ℕ) → posts k (n + 1) ≡ posts k n + hits k (pair n)
      next k = let e : n + 1 ≡ suc n = omega arith in rw e refl

  pub last_post-IsLate :
      {sems : List ℕ}
      → s.wholesaler ≡ last_posting
      → system_v_sempost s.sems s.sem_index ≡ ok sems
      → IsLate (record s { sems = sems; wholesaler = done })
  last_post-IsLate {sems} w e =
      let (n, lt, p) = v.paired in
      let (ups, len, more) : Ups s.sems (pair n) sems =
        sempost_lem s.sems (first n) (second n)
          (subst (λ l. system_v_sempost s.sems l ≡ ok sems) p e) in
      record {
        is_finished = v.is_finished;
        ended = inr refl;
        paired = v.paired;
        places = v.places;
        enough = λ k. omega (arith, v.enough k, ups k, ap (hits k) p);
      }
