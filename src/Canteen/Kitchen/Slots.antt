-- ===== src/Canteen/Kitchen/Slots.antt =====
-- The semaphore `empty` counts the empty slots that no process has claimed.
use cse344_assignments.Base.{
  ℕ, zero, suc, ◌+◌, ◌<◌, ◌≡◌, refl, sym, ap, ◌∙◌, subst, none, some, List, length,
  length-replicate, replicate, ok, ok-injective, err, out_of_bounds, tally, tally-set,
  tally-replicate, arith,
}
use cse344_assignments.Canteen.Room.{next, put_item, plate_empty, food_kind}
use cse344_assignments.Canteen.Room.Counts.{
  plates, is_kind, next-eq-some, next_some, put_item_lem, get_item_lem,
}
use cse344_assignments.Canteen.Kitchen.{
  Supplier, supplying, entering, posting, supplied, Cook, cooking, looking, leaving, gone, Kitchen,
  init_kitchen, Step, Reach, start, later, wait_empty, put_plate, post_full, stop_supply, wait_full,
  find_none, take_plate, post_empty, go_home,
}

-- The slot that the supplier has claimed, and the one that a cook has emptied and not yet posted.
unfoldable pub claimed : Supplier → ℕ
claimed supplying = 0
claimed entering = 1
claimed (posting food) = 0
claimed supplied = 0

unfoldable pub emptied : Cook → ℕ
emptied cooking = 0
emptied (looking food) = 0
emptied leaving = 1
emptied gone = 0

claimed-at : {p : Supplier} (q : Supplier) {n : ℕ} → p ≡ q → claimed q ≡ n → claimed p ≡ n
claimed-at q e f = ap claimed e ∙ f

is_kind_empty : is_kind plate_empty plate_empty ≡ 1
unfolding is_kind
is_kind_empty = refl

is_kind_food : (food : ℕ) → food < food_kind → is_kind plate_empty food ≡ 0
unfolding is_kind
is_kind_food food lt = ground arith

pub plates-replicate : (n : ℕ) → plates plate_empty (replicate n plate_empty) ≡ n
unfolding tally is_kind
plates-replicate zero = refl
plates-replicate (suc n) = omega (arith, plates-replicate n)

module _ (size : ℕ) where
  pub record IsKitchen (k : Kitchen) : Type 0 where
    pub sized : length k.room ≡ size
    pub slots : plates plate_empty k.room ≡ k.empty + claimed k.supplier + tally emptied k.cooks

  start-IsKitchen : (count : ℕ) → IsKitchen (init_kitchen size count)
  unfolding init_kitchen claimed
  start-IsKitchen count = record {
    sized = length-replicate size plate_empty;
    slots =
        plates-replicate size
        ∙ omega (arith, tally-replicate {a = cooking} emptied count (unfold emptied in refl));
  }

  Step-IsKitchen : {k k' : Kitchen} → Step size k k' → IsKitchen k → IsKitchen k'
  unfolding put_item
  Step-IsKitchen {k} (wait_empty here free) v = record {
    sized = v.sized;
    slots = v.slots ∙ unfold claimed in (omega (arith, claimed-at supplying here refl));
  }
  Step-IsKitchen {k} (put_plate food {slot = none} {room} kind here found put) v =
      absurd (refused put)
    where
      err-ne-ok : {A : Type 0} {a : A} → err out_of_bounds ≡ ok a → ⊥
      err-ne-ok e = cc

      refused : ¬ (put_item k.room none food ≡ ok room)
      refused e = err-ne-ok e
  Step-IsKitchen {k} (put_plate food {slot = some slot} {room} kind here found put) v =
      let at = next-eq-some k.room plate_empty slot size v.sized found in
      let (room', e, l, moved) = put_item_lem k.room slot at food in
      let same : room' ≡ room = ok-injective (sym e ∙ put) in
      let fewer =
        subst
          (λ r.
            plates plate_empty r + is_kind plate_empty plate_empty
            ≡ plates plate_empty k.room + is_kind plate_empty food)
          same (moved plate_empty) in
      record {
        sized = ap length (sym same) ∙ l ∙ v.sized;
        slots =
            unfold claimed in
            (omega (
              arith,
              fewer,
              v.slots,
              claimed-at entering here refl,
              is_kind_empty,
              is_kind_food food kind,
            ));
      }
  Step-IsKitchen {k} (post_full food here) v = record {
    sized = v.sized;
    slots = v.slots ∙ unfold claimed in (omega (arith, claimed-at (posting food) here refl));
  }
  Step-IsKitchen {k} (stop_supply here) v = record {
    sized = v.sized;
    slots = v.slots ∙ unfold claimed in (omega (arith, claimed-at supplying here refl));
  }
  Step-IsKitchen {k} (wait_full i food at kind free) v = record {
    sized = v.sized;
    slots =
        v.slots ∙ unfold emptied in (omega (arith, tally-set emptied k.cooks i (looking food) at));
  }
  Step-IsKitchen {k} (find_none i food at found) v = record {
    sized = v.sized;
    slots = v.slots ∙ unfold emptied in (omega (arith, tally-set emptied k.cooks i cooking at));
  }
  Step-IsKitchen {k} (take_plate i food slot {item} {room} kind at found got) v =
      let here = next-eq-some k.room food slot size v.sized found in
      let (room', e, l, moved) = get_item_lem k.room slot here in
      let same : room' ≡ room = ap (λ (x : ℕ × List ℕ). x.1) (ok-injective (sym e ∙ got)) in
      let more =
        subst
          (λ r.
            plates plate_empty r + is_kind plate_empty food
            ≡ plates plate_empty k.room + is_kind plate_empty plate_empty)
          same (moved plate_empty) in
      record {
        sized = ap length (sym same) ∙ l ∙ v.sized;
        slots =
            unfold emptied in
            (omega (
              arith,
              more,
              v.slots,
              tally-set emptied k.cooks i leaving at,
              is_kind_empty,
              is_kind_food food kind,
            ));
      }
  Step-IsKitchen {k} (post_empty i at) v = record {
    sized = v.sized;
    slots = v.slots ∙ unfold emptied in (omega (arith, tally-set emptied k.cooks i cooking at));
  }
  Step-IsKitchen {k} (go_home i at) v = record {
    sized = v.sized;
    slots = v.slots ∙ unfold emptied in (omega (arith, tally-set emptied k.cooks i gone at));
  }

  pub Reach-IsKitchen : {count : ℕ} {k : Kitchen} → Reach size count k → IsKitchen k
  Reach-IsKitchen {count} start = start-IsKitchen count
  Reach-IsKitchen (later r st) = Step-IsKitchen st (Reach-IsKitchen r)

  -- In every reachable state of the kitchen in which the supplier has passed its wait for an empty
  -- slot, next finds an empty slot and put_item onto it succeeds: the assertion of the supplier
  -- never fails, whatever the cooks do.
  pub supplier_has_slot :
      (count : ℕ) (k : Kitchen) (food : ℕ)
      → Reach size count k
      → k.supplier ≡ entering
      → (slot : ℕ) × (room : List ℕ) × (next k.room size plate_empty ≡ ok (some slot))
        × (put_item k.room (some slot) food ≡ ok room)
  supplier_has_slot count k food r here =
      let v = Reach-IsKitchen r in
      let (slot, e, at) =
        next_some k.room plate_empty (omega (arith, v.slots, claimed-entering here)) in
      let (room, put, _, _) = put_item_lem k.room slot at food in
      (slot, room, ap (λ n. next k.room n plate_empty) (sym v.sized) ∙ e, put)
    where
      claimed-entering : {p : Supplier} → p ≡ entering → claimed p ≡ 1
      claimed-entering e = unfold claimed in (ap claimed e)
