-- ===== src/Chefs/Examples.antt =====
-- The theorems on the supplies at the line "WM", and those on the chefs at the file of the line "MF" and
-- at an empty one.
use cse344_assignments.Base.{ℕ, ◌<◌, ◌⊎◌, refl, false, List, [], ◌∷◌, arith}
use cse344_assignments.Chefs.{get_mask, sem_of_ingredients, next_supply}
use cse344_assignments.Chefs.Supply.{letter_m, letter_f}
use cse344_assignments.Chefs.Bakery.{
  Bakery, awaiting, looping, taking, preparing, empty, init, system_v_sempost, system_v_semwait,
  Reach, start, later, read, deliver, post, enter, wake, stay, take_delivery,
}
use cse344_assignments.Chefs.Bakery.Files.{IsFile, line, over}
use cse344_assignments.Chefs.Bakery.Moves.{CanStep}
use cse344_assignments.Chefs.Bakery.Safety.{IsOwn, delivery-IsOwn}
use cse344_assignments.Chefs.Bakery.Exits.{IsOver, bakery_progress}
use cse344_assignments.Chefs.Bakery.Ends.{measure, bakery_ends}
use cse344_assignments.Chefs.Bakery.Stuck.{no_line_deadlock}

-- A file of one line; chef 0 alone has milk and flour.
abbrev one_line : List ℕ
one_line = b'M' ∷ b'F' ∷ 10 ∷ []

one_line-IsFile : IsFile one_line
one_line-IsFile = line letter_m letter_f (λ e. absurd (omega arith)) (over (omega arith))

-- Chef 0 has passed both tests; the others have not begun.
abbrev served : Bakery
served = record {
  sems = 0 ∷ 0 ∷ 0 ∷ 0 ∷ [];
  finished = false;
  dessert = 0;
  store = 6;
  fd = [];
  sem_index = 0 ∷ 1 ∷ [];
  wholesaler = awaiting;
  chefs = taking ∷ looping ∷ looping ∷ looping ∷ looping ∷ looping ∷ [];
}

served-Reach : Reach one_line 0 0 0 served
unfolding init next_supply sem_of_ingredients get_mask system_v_sempost system_v_semwait
served-Reach =
    let r1 =
      later start (
        read {mask = 6} {fd = []} {index = 0 ∷ 1 ∷ []} refl refl (λ e. absurd (omega arith))
          refl) in
    let r2 = later r1 (deliver refl) in
    let r3 = later r2 (post {sems = 1 ∷ 1 ∷ 0 ∷ 0 ∷ []} refl refl) in
    let r4 = later r3 (enter 0 refl refl) in
    let r5 =
      later r4
        (wake 0 {index = 0 ∷ 1 ∷ []} {sems = 0 ∷ 0 ∷ 0 ∷ 0 ∷ []} refl (6, 0, 0, refl, refl) refl) in
    later r5 (stay 0 refl refl)

delivery-IsOwn_example : IsOwn served 0
delivery-IsOwn_example = delivery-IsOwn 0 one_line-IsFile (omega arith) served-Reach refl

bakery_progress_example : IsOver served ⊎ CanStep served
bakery_progress_example = bakery_progress one_line-IsFile (omega arith) served-Reach

bakery_ends_example :
    measure (record served {
      store = empty;
      chefs = preparing ∷ looping ∷ looping ∷ looping ∷ looping ∷ looping ∷ [];
    })
    < measure served
bakery_ends_example = bakery_ends one_line-IsFile (omega arith) served-Reach (take_delivery 0 refl)

no_line_deadlock_example : (s : Bakery) × Reach [] 0 0 0 s × (¬ IsOver s) × (¬ CanStep s)
no_line_deadlock_example = no_line_deadlock [] 0 0 (omega arith) (omega arith)
