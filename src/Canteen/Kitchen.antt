-- ===== src/Canteen/Kitchen.antt =====
-- The kitchen of midterm-project/solution/source/program.c between the supplier and any number of
-- cooks. What a process does while it holds `room_mutex` is one step, and so is each operation on
-- another semaphore. The counter, which a cook visits between two turns at the kitchen, does not touch
-- the kitchen: a cook may begin a turn, or leave for good, at any time.
pub mod Slots
use cse344_assignments.Base.{
  ℕ, ◌+◌, ◌-◌, ◌<◌, ◌≡◌, Option, none, some, List, get_elem?, get_or, set, replicate, ok,
}
use cse344_assignments.Canteen.Room.{next, put_item, get_item, plate_empty, food_kind}

-- Where the supplier stands: before its wait for an empty slot, before the mutex, before the post of
-- the plate's kind, or done.
pub data Supplier : Type 0 where
  supplying : Supplier
  entering : Supplier
  posting : ℕ → Supplier
  supplied : Supplier

-- Where a cook stands: before its wait for a kind, before the mutex, before the post of the empty slot,
-- or gone.
pub data Cook : Type 0 where
  cooking : Cook
  looking : ℕ → Cook
  leaving : Cook
  gone : Cook

-- The room, its semaphores `empty` and `full`, and the processes.
pub record Kitchen : Type 0 where
  pub room : List ℕ
  pub empty : ℕ
  pub full : List ℕ
  pub supplier : Supplier
  pub cooks : List Cook

-- What `init` leaves for KITCHEN, with `size` slots and as many cooks as `count`.
unfoldable pub init_kitchen : ℕ → ℕ → Kitchen
init_kitchen size count = record {
  room = replicate size plate_empty;
  empty = size;
  full = replicate food_kind 0;
  supplier = supplying;
  cooks = replicate count cooking;
}

-- `spost(&k.full[food])`.
abbrev pub post_kind : List ℕ → ℕ → List ℕ
post_kind full food = set full food (get_or full food 0 + 1)

module _ (size : ℕ) where
  pub data Step (k : Kitchen) : Kitchen → Type 0 where
    wait_empty :
        k.supplier ≡ supplying
        → 0 < k.empty
        → Step k (record k { empty = k.empty - 1; supplier = entering })
    -- The supplier under the mutex, when its assertion holds.
    put_plate :
        (food : ℕ) {slot : Option ℕ} {room : List ℕ}
        → food < food_kind
        → k.supplier ≡ entering
        → next k.room size plate_empty ≡ ok slot
        → put_item k.room slot food ≡ ok room
        → Step k (record k { room = room; supplier = posting food })
    post_full :
        (food : ℕ)
        → k.supplier ≡ posting food
        → Step k (record k { full = post_kind k.full food; supplier = supplying })
    stop_supply : k.supplier ≡ supplying → Step k (record k { supplier = supplied })
    wait_full :
        (i food : ℕ)
        → get_elem? k.cooks i ≡ some cooking
        → food < food_kind
        → 0 < get_or k.full food 0
        → Step k (record k {
          full = set k.full food (get_or k.full food 0 - 1);
          cooks = set k.cooks i (looking food);
        })
    -- A cook under the mutex that finds no such plate gives the kind back.
    find_none :
        (i food : ℕ)
        → get_elem? k.cooks i ≡ some (looking food)
        → next k.room size food ≡ ok none
        → Step k (record k { full = post_kind k.full food; cooks = set k.cooks i cooking })
    take_plate :
        (i food slot : ℕ) {item : ℕ} {room : List ℕ}
        → food < food_kind
        → get_elem? k.cooks i ≡ some (looking food)
        → next k.room size food ≡ ok (some slot)
        → get_item k.room (some slot) ≡ ok (item, room)
        → Step k (record k { room = room; cooks = set k.cooks i leaving })
    post_empty :
        (i : ℕ)
        → get_elem? k.cooks i ≡ some leaving
        → Step k (record k { empty = k.empty + 1; cooks = set k.cooks i cooking })
    -- A cook that leaves posts every kind, here in one step.
    go_home :
        (i : ℕ)
        → get_elem? k.cooks i ≡ some cooking
        → Step k (record k {
          full = post_kind (post_kind (post_kind k.full 0) 1) 2;
          cooks = set k.cooks i gone;
        })

  pub data Reach (count : ℕ) : Kitchen → Type 0 where
    start : Reach count (init_kitchen size count)
    later : {k k' : Kitchen} → Reach count k → Step k k' → Reach count k'
