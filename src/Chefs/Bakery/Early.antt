-- ===== src/Chefs/Bakery/Early.antt =====
-- The steps of the chefs of homework-4/solution/source/program.c before the wholesaler sets `finished`.
use cse344_assignments.Base.{
  ℕ, zero, suc, ◌+◌, ◌≤◌, ◌<◌, ◌≡◌, refl, sym, ap, ◌∙◌, subst, some, List, [], ◌∷◌, length,
  get_elem?, set, ok, arith,
}
use cse344_assignments.Chefs.{get_mask}
use cse344_assignments.Chefs.Bakery.{
  Chef, looping, waiting, woken, taking, preparing, awaiting, Bakery, chef_number, system_v_semwait,
  IsIndex, chef_to, empty,
}
use cse344_assignments.Chefs.Bakery.Semaphores.{hits, Ups, semwait_lem}
use cse344_assignments.Chefs.Bakery.Pairs.{pair, first, second, pair_le, IsIndex-pair}
use cse344_assignments.Chefs.Bakery.Weights.{
  weigh-set, weigh_one, busy_one, before_one, held, before-le-busy, Each-set,
}
use cse344_assignments.Chefs.Bakery.Delivery.{
  IsEarlyChef, due, IsLoaded, live_of, IsEarly, IsLoaded-le, IsLoaded-due,
}

pub lt_of_at : (cs : List Chef) (i : ℕ) {c : Chef} → get_elem? cs i ≡ some c → i < length cs
lt_of_at [] i e = absurd (ground arith)
lt_of_at (b ∷ cs) zero e = omega arith
lt_of_at (b ∷ cs) (suc i) e = omega (arith, lt_of_at cs i e)

-- A chef that holds a pair.
abbrev pub IsBusy : ℕ → Chef → Type 0
IsBusy i c = (busy_one i c ≡ 1) × ((k : ℕ) → held k i c ≡ hits k (pair i))

module _ (s : Bakery) (v : IsEarly s) (few : length s.chefs ≡ chef_number) where
  -- A busy chef is the one that the delivery is for.
  pub busy-IsLoaded :
      (i : ℕ) {c : Chef}
      → get_elem? s.chefs i ≡ some c
      → IsBusy i c
      → (s.wholesaler ≡ awaiting)
        × (s.sem_index ≡ pair i)
        × (0 < live_of s → get_mask i ≡ ok s.store)
  busy-IsLoaded i {c} at (one, holds) =
      let lt = lt_of_at s.chefs i at in
      let (w, (n, lt', e, g)) =
        IsLoaded-due s.wholesaler s.store (live_of s) s.sem_index s.fd
          (omega (arith, v.total, one, weigh_one busy_one s.chefs i at)) v.loaded in
      let part : (k : ℕ) → hits k (pair i) ≤ hits k (pair n) = λ k.
        let due_now : due s.wholesaler (hits k s.sem_index) ≡ hits k (pair n) =
          ap (λ w. due w (hits k s.sem_index)) w ∙ ap (hits k) e in
        omega (arith, v.within k, holds k, weigh_one (held k) s.chefs i at, due_now) in
      let same : i ≡ n = pair_le i n (omega arith) lt' part in
      (w, e ∙ ap pair (sym same), λ p. ap get_mask same ∙ g p)

  -- A step of a chef that keeps what it holds.
  move-IsEarly :
      (i : ℕ) {c : Chef} (c' : Chef)
      → get_elem? s.chefs i ≡ some c
      → IsEarlyChef i c'
      → busy_one i c' ≡ busy_one i c
      → before_one i c' ≡ before_one i c
      → ((k : ℕ) → held k i c' ≡ held k i c)
      → IsEarly (chef_to s i c')
  move-IsEarly i {c} c' at p one before holds = record {
    unfinished = v.unfinished;
    places = Each-set IsEarlyChef s.chefs i c' v.places p;
    within = λ k. omega (arith, v.within k, weigh-set (held k) s.chefs i c' at, holds k);
    total = omega (arith, v.total, weigh-set busy_one s.chefs i c' at, one);
    loaded =
        IsLoaded-le s.wholesaler s.store _ _ s.sem_index s.fd
          (λ q. omega (arith, q, weigh-set before_one s.chefs i c' at, before)) v.loaded;
  }

  pub enter-IsEarly : (i : ℕ) → get_elem? s.chefs i ≡ some looping → IsEarly (chef_to s i waiting)
  enter-IsEarly i at = move-IsEarly i waiting at tt refl refl (λ k. refl)

  pub stay-IsEarly : (i : ℕ) → get_elem? s.chefs i ≡ some woken → IsEarly (chef_to s i taking)
  stay-IsEarly i at = move-IsEarly i taking at tt refl refl (λ k. refl)

  pub wake-IsEarly :
      (i : ℕ) {index sems : List ℕ}
      → get_elem? s.chefs i ≡ some waiting
      → IsIndex i index
      → system_v_semwait s.sems index ≡ ok (some sems)
      → IsEarly (record s { sems = sems; chefs = set s.chefs i woken })
  wake-IsEarly i {index} {sems} at is e =
      let (lt, p) = IsIndex-pair i is in
      let (ups, len, more) : Ups sems (pair i) s.sems =
        semwait_lem s.sems (first i) (second i)
          (subst (λ l. system_v_semwait s.sems l ≡ ok (some sems)) p e) in
      record {
        unfinished = v.unfinished;
        places = Each-set IsEarlyChef s.chefs i woken v.places tt;
        within = λ k. omega (arith, v.within k, weigh-set (held k) s.chefs i woken at, ups k);
        total = omega (arith, v.total, weigh-set busy_one s.chefs i woken at, more);
        loaded =
            IsLoaded-le s.wholesaler s.store _ _ s.sem_index s.fd (λ q. omega (arith, more))
              v.loaded;
      }

  pub take_delivery-IsEarly :
      (i : ℕ)
      → get_elem? s.chefs i ≡ some taking
      → IsEarly (record s { store = empty; chefs = set s.chefs i preparing })
  take_delivery-IsEarly i at =
      let (w, e, g) = busy-IsLoaded i at (refl, λ k. refl) in
      record {
        unfinished = v.unfinished;
        places = Each-set IsEarlyChef s.chefs i preparing v.places tt;
        within = λ k. omega (arith, v.within k, weigh-set (held k) s.chefs i preparing at);
        total = omega (arith, v.total, weigh-set busy_one s.chefs i preparing at);
        loaded =
            subst
              (λ w.
                IsLoaded w empty (live_of (record s { chefs = set s.chefs i preparing }))
                  s.sem_index s.fd)
              (sym w) (i, omega (arith, lt_of_at s.chefs i at), e, λ q. absurd (none_left q w));
      }
    where
      none_left :
          0 < live_of (record s { chefs = set s.chefs i preparing }) → s.wholesaler ≡ awaiting → ⊥
      none_left q w =
          let two : due s.wholesaler 2 ≡ 2 = ap (λ w. due w 2) w in
          omega (
            arith,
            v.total,
            weigh-set before_one s.chefs i preparing at,
            before-le-busy 0 s.chefs,
            weigh_one busy_one s.chefs i at,
          )

  pub post_dessert-IsEarly :
      (i : ℕ)
      → get_elem? s.chefs i ≡ some preparing
      → IsEarly (record s { dessert = s.dessert + 1; chefs = set s.chefs i looping })
  post_dessert-IsEarly i at = record {
    unfinished = v.unfinished;
    places = Each-set IsEarlyChef s.chefs i looping v.places tt;
    within = λ k. omega (arith, v.within k, weigh-set (held k) s.chefs i looping at);
    total = omega (arith, v.total, weigh-set busy_one s.chefs i looping at);
    loaded =
        IsLoaded-le s.wholesaler s.store _ _ s.sem_index s.fd
          (λ q. omega (arith, q, weigh-set before_one s.chefs i looping at)) v.loaded;
  }
