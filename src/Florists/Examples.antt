-- ===== src/Florists/Examples.antt =====
-- The theorems on the shop at concrete inputs: distances are numbers up to 100.
use cse344_assignments.Base.{
  ℕ, zero, suc, ◌+◌, ◌-◌, ◌<◌, ◌≡◌, refl, ◌⊎◌, Bool, true, false, none, some, List, [], ◌∷◌,
  get_elem?, ltb, leb, if◌then◌else◌, ok, arith,
}
use cse344_assignments.Server.Queue.{Queue, create_queue, is_full, is_empty, append, dequeue}
use cse344_assignments.Florists.Flowers.{flowers_of, joined}
use cse344_assignments.Florists.Flowers.Names.{flowers_of-joined}
use cse344_assignments.Florists.Queue.{enqueue}
use cse344_assignments.Florists.Choice.{
  Client, Florist, same_name, chebyshev_distance, find_florist,
}
use cse344_assignments.Florists.Choice.Nearest.{
  distance, Delivers, IsNearest, find_florist-IsNearest,
}
use cse344_assignments.Florists.Shop.{
  waiting, asleep, delivering, closed, Worker, broadcast, Shop, assign_florists, Step, request,
  finish, sleep, take, deliver, close, Reach, start, later,
}
use cse344_assignments.Florists.Shop.Wakeups.{AllRest}
use cse344_assignments.Florists.Shop.Duty.{assigned}
use cse344_assignments.Florists.Shop.Sales.{closed_sold_all, request_fits}
use cse344_assignments.Florists.Shop.Progress.{IsOver, measure, shop_progress, shop_ends}

gap : ℕ → ℕ → ℕ
gap a b = let d = (a - b) + (b - a) in if leb d 100 then d else 100

abbrev gt : ℕ → ℕ → Bool
gt a b = ltb b a

abbrev rose : List ℕ
rose = b'r' ∷ b'o' ∷ b's' ∷ b'e' ∷ []

abbrev lily : List ℕ
lily = b'l' ∷ b'i' ∷ b'l' ∷ b'y' ∷ []

-- The second and the third are as near to the client; the last one does not sell roses.
abbrev florists : List (Florist ℕ)
florists =
    record { location = record { x = 0; y = 90 }; flower = rose ∷ [] }
    ∷ record { location = record { x = 5; y = 0 }; flower = lily ∷ rose ∷ [] }
    ∷ record { location = record { x = 0; y = 5 }; flower = rose ∷ [] }
    ∷ record { location = record { x = 0; y = 1 }; flower = lily ∷ [] }
    ∷ []

abbrev client : Client ℕ
client = record { location = record { x = 0; y = 0 }; flower = rose }

third : find_florist gap gt leb 100 florists client ≡ 2
unfolding find_florist gap same_name
third = refl

leb_total : (a b : ℕ) → (leb a b ≡ true) ⊎ (leb b a ≡ true)
leb_total a b = ground arith

leb_trans : (a b c : ℕ) → leb a b ≡ true → leb b c ≡ true → leb a c ≡ true
leb_trans a b c h k = ground arith

finite : (f : Florist ℕ) → leb (distance gap gt leb client f) 100 ≡ true
unfolding chebyshev_distance gap
finite f = ground arith

find_florist-IsNearest_example :
    ((find_florist gap gt leb 100 florists client ≡ 4)
      × ((j : ℕ) (g : Florist ℕ) → get_elem? florists j ≡ some g → ¬ Delivers gap gt leb client g))
    ⊎ ((f : Florist ℕ) × IsNearest gap gt leb client florists
          (find_florist gap gt leb 100 florists client)
          f)
find_florist-IsNearest_example =
    find_florist-IsNearest gap gt leb client leb_total leb_trans 100 florists finite

-- Three clients of two florists: the first and the last go to the first florist.
abbrev chosen : ℕ → ℕ
chosen zero = 0
chosen (suc zero) = 1
chosen (suc (suc c)) = 0

abbrev queued : Queue ℕ
queued = record { front = 0; back = 0; cap = 3; size = 1; line = some 0 ∷ none ∷ none ∷ [] }

-- The first request is in its queue.
abbrev opened : Shop
opened = record {
  next = 1;
  finished = false;
  florists =
      record { queue = queued; pc = waiting; total_sale = 0 }
      ∷ record { queue = create_queue 3; pc = waiting; total_sale = 0 }
      ∷ [];
}

-- The first florist waits for it.
opened-Reach : Reach 3 chosen 2 opened
unfolding assign_florists create_queue broadcast is_empty
opened-Reach = later (later start (sleep 0 refl refl refl refl)) (
    request {w = record { queue = create_queue 3; pc = asleep; total_sale = 0 }} {q = queued}
      (omega arith) refl first)
  where
    first : enqueue (create_queue 3) 0 ≡ ok queued
    first = unfold enqueue is_full append create_queue in refl

request_fits_example : (q : Queue ℕ) × (enqueue queued 1 ≡ ok q)
request_fits_example =
    request_fits chosen 3 (omega arith) (omega arith) opened 0
      (record { queue = queued; pc = waiting; total_sale = 0 }) opened-Reach (omega arith) refl

chosen_served : (c : ℕ) → c < 3 → chosen c < 2
chosen_served zero lt = omega arith
chosen_served (suc zero) lt = omega arith
chosen_served (suc (suc c)) lt = omega arith

shop_progress_example : (IsOver opened ⊎ ((t : Shop) × Step 3 chosen opened t)) × AllRest opened
shop_progress_example =
    shop_progress 3 chosen (omega arith) (omega arith) 2 opened chosen_served opened-Reach

-- The first florist takes the request.
abbrev went : Shop
went = record {
  next = 1;
  finished = false;
  florists =
      record {
        queue = record { front = 1; back = 0; cap = 3; size = 0; line = some 0 ∷ none ∷ none ∷ [] };
        pc = delivering 0;
        total_sale = 0;
      }
      ∷ record { queue = create_queue 3; pc = waiting; total_sale = 0 }
      ∷ [];
}

opened-Step : Step 3 chosen opened went
unfolding dequeue is_empty
opened-Step = take 0 refl refl refl

shop_ends_example : measure 3 chosen 2 went < measure 3 chosen 2 opened
shop_ends_example =
    shop_ends 3 chosen (omega arith) (omega arith) 2 opened went opened-Reach opened-Step

-- One florist and one client, to the end of the day.
abbrev sold : Queue ℕ
sold = record { front = 0; back = 0; cap = 1; size = 0; line = some 0 ∷ [] }

abbrev morning : Shop
morning = record {
  next = 1;
  finished = false;
  florists =
      record {
        queue = record { front = 0; back = 0; cap = 1; size = 1; line = some 0 ∷ [] };
        pc = waiting;
        total_sale = 0;
      }
      ∷ [];
}

abbrev home : Worker
home = record { queue = sold; pc = closed; total_sale = 1 }

abbrev evening : Shop
evening = record { next = 1; finished = true; florists = home ∷ [] }

evening-Reach : Reach 1 (λ c. 0) 1 evening
unfolding assign_florists create_queue enqueue is_full is_empty append dequeue broadcast
evening-Reach =
    let a : Reach 1 (λ c. 0) 1 morning = later start (
      request {q = record { front = 0; back = 0; cap = 1; size = 1; line = some 0 ∷ [] }}
        (omega arith) refl refl) in
    let b = later a (finish refl refl) in
    let c = later b (take 0 refl refl refl) in
    let d = later c (deliver 0 refl refl) in later d (close 0 refl refl refl refl)

closed_sold_all_example : (1 ≡ assigned (λ c. 0) 0 1) × (sold.size ≡ 0)
closed_sold_all_example =
    closed_sold_all (λ c. 0) 1 (omega arith) (omega arith) evening 0 home evening-Reach refl refl

flowers_of-joined_example :
    flowers_of (joined (b'r' ∷ b'o' ∷ []) ((b'l' ∷ []) ∷ []))
    ≡ ok ((b'r' ∷ b'o' ∷ []) ∷ (b'l' ∷ []) ∷ [])
flowers_of-joined_example =
    flowers_of-joined (b'r' ∷ b'o' ∷ []) ((b'l' ∷ []) ∷ [])
      (omega arith, omega arith, (refl, (refl, tt))) ((omega arith, omega arith, (refl, tt)), tt)
