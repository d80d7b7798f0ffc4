-- ===== src/Chefs/Bakery/Delivery.antt =====
-- The deliveries of homework-4/solution/source/program.c, up to the point where the wholesaler sets
-- `finished`.
use cse344_assignments.Base.{
  ℕ, ◌+◌, ◌*◌, ◌≤◌, ◌<◌, ◌≡◌, refl, ◌⊎◌, false, List, length, get_or, ok, arith,
}
use cse344_assignments.Chefs.{get_mask}
use cse344_assignments.Chefs.Bakery.{
  Chef, looping, waiting, woken, taking, preparing, exiting, gone, Wholesaler, reading, delivering,
  posting, awaiting, finishing, last_posting, done, Bakery, chef_number,
}
use cse344_assignments.Chefs.Bakery.Semaphores.{hits, sum}
use cse344_assignments.Chefs.Bakery.Pairs.{pair}
use cse344_assignments.Chefs.Bakery.Weights.{weigh, busy_one, before_one, held, Each}

-- A chef before the end.
abbrev pub IsEarlyChef : ℕ → Chef → Type 0
IsEarlyChef i (exiting n) = ⊥
IsEarlyChef i gone = ⊥
IsEarlyChef i looping = Unit
IsEarlyChef i waiting = Unit
IsEarlyChef i woken = Unit
IsEarlyChef i taking = Unit
IsEarlyChef i preparing = Unit

-- What is under way while the wholesaler waits for the dessert.
abbrev pub due : Wholesaler → ℕ → ℕ
due reading h = 0
due (delivering mask) h = 0
due posting h = 0
due awaiting h = h
due finishing h = 0
due last_posting h = 0
due done h = 0

-- The index is that of a chef.
abbrev pub IsPaired : List ℕ → Type 0
IsPaired index = (n : ℕ) × (n < chef_number) × (index ≡ pair n)

-- The supply that is under way; while `live` is not 0 nobody has taken it.
abbrev pub IsLoaded : Wholesaler → (store live : ℕ) (index fd : List ℕ) → Type 0
IsLoaded reading store live index fd = IsPaired index ⊎ (3 ≤ length fd)
IsLoaded (delivering mask) store live index fd =
    (n : ℕ) × (n < chef_number) × (index ≡ pair n) × (get_mask n ≡ ok mask)
IsLoaded posting store live index fd =
    (n : ℕ) × (n < chef_number) × (index ≡ pair n) × (get_mask n ≡ ok store)
IsLoaded awaiting store live index fd =
    (n : ℕ) × (n < chef_number) × (index ≡ pair n) × (0 < live → get_mask n ≡ ok store)
IsLoaded finishing store live index fd = IsPaired index
IsLoaded last_posting store live index fd = ⊥
IsLoaded done store live index fd = ⊥

abbrev pub live_of : Bakery → ℕ
live_of s = sum s.sems + weigh before_one 0 s.chefs

pub record IsEarly (s : Bakery) : Type 0 where
  pub unfinished : s.finished ≡ false
  pub places : Each IsEarlyChef s.chefs
  pub within :
      (k : ℕ) → get_or s.sems k 0 + weigh (held k) 0 s.chefs ≤ due s.wholesaler (hits k s.sem_index)
  pub total : sum s.sems + 2 * weigh busy_one 0 s.chefs + 2 * s.dessert ≡ due s.wholesaler 2
  pub loaded : IsLoaded s.wholesaler s.store (live_of s) s.sem_index s.fd

pub IsLoaded-le :
    (w : Wholesaler) (store live live' : ℕ) (index fd : List ℕ)
    → (0 < live' → 0 < live)
    → IsLoaded w store live index fd
    → IsLoaded w store live' index fd
IsLoaded-le reading store live live' index fd h l = l
IsLoaded-le (delivering mask) store live live' index fd h l = l
IsLoaded-le posting store live live' index fd h l = l
IsLoaded-le awaiting store live live' index fd h (n, lt, e, g) = (n, lt, e, λ p. g (h p))
IsLoaded-le finishing store live live' index fd h l = l
IsLoaded-le last_posting store live live' index fd h l = l
IsLoaded-le done store live live' index fd h l = l

-- Whoever takes part of what is due takes part in a delivery.
pub IsLoaded-due :
    (w : Wholesaler) (store live : ℕ) (index fd : List ℕ)
    → 0 < due w 2
    → IsLoaded w store live index fd
    → (w ≡ awaiting)
      × ((n : ℕ) × (n < chef_number) × (index ≡ pair n) × (0 < live → get_mask n ≡ ok store))
IsLoaded-due reading store live index fd pos l = absurd (omega arith)
IsLoaded-due (delivering mask) store live index fd pos l = absurd (omega arith)
IsLoaded-due posting store live index fd pos l = absurd (omega arith)
IsLoaded-due awaiting store live index fd pos l = (refl, l)
IsLoaded-due finishing store live index fd pos l = absurd (omega arith)
IsLoaded-due last_posting store live index fd pos l = absurd (omega arith)
IsLoaded-due done store live index fd pos l = absurd (omega arith)
