-- ===== src/Chefs/Bakery/Safety.antt =====
-- Who takes a delivery of homework-4/solution/source/program.c.
use cse344_assignments.Base.{
  ℕ, ◌≤◌, ◌<◌, ◌≡◌, refl, sym, ap, subst, ◌⊎◌, inl, inr, some, List, length, get_elem?, ok, arith,
}
use cse344_assignments.Chefs.{get_mask}
use cse344_assignments.Chefs.Bakery.{Chef, taking, preparing, Bakery, chef_number, Reach}
use cse344_assignments.Chefs.Bakery.Semaphores.{hits}
use cse344_assignments.Chefs.Bakery.Pairs.{pair, pair_le}
use cse344_assignments.Chefs.Bakery.Weights.{weigh_one, before_one}
use cse344_assignments.Chefs.Bakery.Files.{IsFile}
use cse344_assignments.Chefs.Bakery.Delivery.{IsEarly, live_of}
use cse344_assignments.Chefs.Bakery.Early.{IsBusy, busy-IsLoaded, lt_of_at}
use cse344_assignments.Chefs.Bakery.Late.{IsLate}
use cse344_assignments.Chefs.Bakery.Wholesale.{IsSized}
use cse344_assignments.Chefs.Bakery.Phases.{Reach-IsBakery}

-- A chef that has a delivery, before or after it has emptied the store.
abbrev pub IsServed : Chef → Type 0
IsServed c = (c ≡ taking) ⊎ (c ≡ preparing)

-- The store holds the supply of chef `i`, and no other chef has a delivery.
abbrev pub IsOwn : Bakery → ℕ → Type 0
IsOwn s i =
    (get_mask i ≡ ok s.store)
    × ((j : ℕ) (c : Chef) → get_elem? s.chefs j ≡ some c → IsServed c → j ≡ i)

served-IsBusy : (i : ℕ) (c : Chef) → IsServed c → IsBusy i c
served-IsBusy i c (inl e) = subst (IsBusy i) (sym e) (refl, λ k. refl)
served-IsBusy i c (inr e) = subst (IsBusy i) (sym e) (refl, λ k. refl)

early-IsOwn :
    (s : Bakery) (v : IsEarly s) (few : length s.chefs ≡ chef_number) (i : ℕ)
    → get_elem? s.chefs i ≡ some taking
    → IsOwn s i
early-IsOwn s v few i at = (g (omega (arith, weigh_one before_one s.chefs i at)), other)
  where
    mine : (s.sem_index ≡ pair i) × (0 < live_of s → get_mask i ≡ ok s.store)
    mine = let (w, e, g) = busy-IsLoaded s v few i at (refl, λ k. refl) in (e, g)

    g : 0 < live_of s → get_mask i ≡ ok s.store
    g = mine.1

    other : (j : ℕ) (c : Chef) → get_elem? s.chefs j ≡ some c → IsServed c → j ≡ i
    other j c at' served =
        let (w, e, g') = busy-IsLoaded s v few j at' (served-IsBusy j c served) in
        pair_le j i (omega (arith, lt_of_at s.chefs j at')) (omega (arith, lt_of_at s.chefs i at))
          (λ k. omega (arith, ap (hits k) e, ap (hits k) mine.0))

-- For a supply file of at least one line whose lines name two different ingredients each, in every
-- reachable state a chef that has passed both tests and is about to take the delivery finds in the
-- store exactly the supply of its own two ingredients, and no other chef has a delivery.
pub delivery-IsOwn :
    {bytes : List ℕ} {x y z : ℕ} {s : Bakery} (i : ℕ)
    → IsFile bytes
    → 3 ≤ length bytes
    → Reach bytes x y z s
    → get_elem? s.chefs i ≡ some taking
    → IsOwn s i
delivery-IsOwn {s = s} i file more r at = by (Reach-IsBakery file more r)
  where
    by : IsSized s × (IsEarly s ⊎ IsLate s) → IsOwn s i
    by (z, inl v) = early-IsOwn s v z.few i at
    by (z, inr v) = absurd (v.places i taking at)
