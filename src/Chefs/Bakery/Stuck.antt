-- ===== src/Chefs/Bakery/Stuck.antt =====
-- homework-4/solution/source/program.c on a supply file without a line.
use cse344_assignments.Base.{
  ℕ, ◌+◌, ◌<◌, ◌≡◌, refl, subst, true, some, List, [], ◌∷◌, length, get_or, get_or-zeros, get_elem?,
  replicate, ok, arith,
}
use cse344_assignments.Chefs.Bakery.{
  Chef, looping, waiting, woken, taking, preparing, exiting, gone, Bakery, chef_number, Step, read,
  read_end, deliver, post, obtain, finish, last_post, done, Reach, start, later, init, enter, leave,
  wake, stay, break, take_delivery, post_dessert, wake_others, exit, system_v_seminit,
  system_v_sempost, system_v_semwait, ingredient_number,
}
use cse344_assignments.Chefs.Bakery.Semaphores.{hits, Ups, sempost_lem, sempost_total, semwait_lem}
use cse344_assignments.Chefs.Bakery.Pairs.{pair, first, second, pair_range, IsIndex-pair}
use cse344_assignments.Chefs.Bakery.Weights.{Each}
use cse344_assignments.Chefs.Bakery.Phases.{Each-replicate}
use cse344_assignments.Chefs.Bakery.Files.{next_short}
use cse344_assignments.Chefs.Bakery.Moves.{CanStep}
use cse344_assignments.Chefs.Bakery.Exits.{IsOver}

-- Every chef waits, and the wholesaler has posted `x` twice.
abbrev stuck_at : ℕ → ℕ → List ℕ → Bakery
stuck_at x z sems = record {
  sems = sems;
  finished = true;
  dessert = 0;
  store = z;
  fd = [];
  sem_index = x ∷ x ∷ [];
  wholesaler = done;
  chefs = replicate chef_number waiting;
}

stuck_at-Reach :
    (fd : List ℕ) (x z : ℕ) (sems : List ℕ)
    → length fd < 3
    → system_v_sempost system_v_seminit (x ∷ x ∷ []) ≡ ok sems
    → Reach fd x x z (stuck_at x z sems)
unfolding init
stuck_at-Reach fd x z sems lt e =
    let r0 = later start (read_end refl (next_short fd lt)) in
    let r1 = later r0 (enter 0 refl refl) in
    let r2 = later r1 (enter 1 refl refl) in
    let r3 = later r2 (enter 2 refl refl) in
    let r4 = later r3 (enter 3 refl refl) in
    let r5 = later r4 (enter 4 refl refl) in
    let r6 = later r5 (enter 5 refl refl) in later (later r6 (finish refl)) (last_post refl e)

all_waiting : Each (λ i c. c ≡ waiting) (replicate chef_number waiting)
all_waiting = Each-replicate (λ i c. c ≡ waiting) chef_number waiting (λ i. refl)

-- Two posts of one semaphore wake no chef.
no_wake :
    (i x : ℕ) (sems downs : List ℕ)
    → Ups system_v_seminit (x ∷ x ∷ []) sems
    → ¬ (system_v_semwait sems (pair i) ≡ ok (some downs))
no_wake i x sems downs (ups, len, more) e =
    let (down, len', less) = semwait_lem sems (first i) (second i) e in
    let (lt, lt') = pair_range i in
    other (first i) (second i) (down (first i)) (down (second i)) (ups (first i)) (ups (second i))
      (get_or-zeros ingredient_number (first i)) (get_or-zeros ingredient_number (second i)) lt
  where
    other :
        (a b : ℕ)
        → get_or sems a 0 ≡ get_or downs a 0 + hits a (a ∷ b ∷ [])
        → get_or sems b 0 ≡ get_or downs b 0 + hits b (a ∷ b ∷ [])
        → get_or sems a 0 ≡ get_or system_v_seminit a 0 + hits a (x ∷ x ∷ [])
        → get_or sems b 0 ≡ get_or system_v_seminit b 0 + hits b (x ∷ x ∷ [])
        → get_or system_v_seminit a 0 ≡ 0
        → get_or system_v_seminit b 0 ≡ 0
        → a < b
        → ⊥
    other a b da db ua ub za zb lt = ground arith

module _ (x z : ℕ) (sems : List ℕ) (ups : Ups system_v_seminit (x ∷ x ∷ []) sems) where
  only_waiting :
      (i : ℕ) (c : Chef)
      → get_elem? (replicate chef_number waiting) i ≡ some c
      → ¬ (c ≡ waiting)
      → ⊥
  only_waiting i c at ne = ne (all_waiting i c at)

  stuck_at-stuck : {t : Bakery} → ¬ Step (stuck_at x z sems) t
  stuck_at-stuck (read w e ne f) = cc
  stuck_at-stuck (read_end w e) = cc
  stuck_at-stuck (deliver w) = cc
  stuck_at-stuck (post w e) = cc
  stuck_at-stuck (obtain w pos) = cc
  stuck_at-stuck (finish w) = cc
  stuck_at-stuck (last_post w e) = cc
  stuck_at-stuck (enter i at f) = only_waiting i looping at (λ p. cc)
  stuck_at-stuck (leave i at f) = only_waiting i looping at (λ p. cc)
  stuck_at-stuck (wake i {index = index} {sems = downs} at is e) =
      no_wake i x sems downs ups
        (subst (λ l. system_v_semwait sems l ≡ ok (some downs)) (IsIndex-pair i is).1 e)
  stuck_at-stuck (stay i at f) = only_waiting i woken at (λ p. cc)
  stuck_at-stuck (break i at f) = only_waiting i woken at (λ p. cc)
  stuck_at-stuck (take_delivery i at) = only_waiting i taking at (λ p. cc)
  stuck_at-stuck (post_dessert i at) = only_waiting i preparing at (λ p. cc)
  stuck_at-stuck (wake_others i n at lt is e) = only_waiting i (exiting n) at (λ p. cc)
  stuck_at-stuck (exit i n at le) = only_waiting i (exiting n) at (λ p. cc)

-- For a supply file without a line, if the two numbers that the memory of sem_index held are the
-- same number of a semaphore, a state can be reached in which the wholesaler or a chef has not
-- ended and no thread can make a step.
pub no_line_deadlock :
    (fd : List ℕ) (x z : ℕ)
    → length fd < 3
    → x < ingredient_number
    → (s : Bakery) × Reach fd x x z s × (¬ IsOver s) × (¬ CanStep s)
no_line_deadlock fd x z lt in_range =
    let (sems, e) = sempost_total system_v_seminit x x in_range in_range in
    let ups = sempost_lem system_v_seminit x x e in
    (
      stuck_at x z sems,
      stuck_at-Reach fd x z sems lt e,
      (λ over. not_over (over.1 0 waiting refl)),
      λ can. stuck_at-stuck x z sems ups can.1,
    )
  where
    not_over : ¬ (waiting ≡ gone)
    not_over p = cc
