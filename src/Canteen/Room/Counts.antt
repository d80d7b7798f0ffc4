-- ===== src/Canteen/Room/Counts.antt =====
-- What `next`, `put_item` and `get_item` do to the number of plates of each kind.
use cse344_assignments.Base.{
  ℕ, zero, suc, ◌+◌, ◌<◌, ◌≡◌, ◌≢◌, refl, sym, ap, ◌∙◌, ◌⊎◌, inl, inr, Bool, false, none, some,
  List, [], ◌∷◌, length, get_elem?, set, length-set, ◌==◌, ==_iff, if◌then◌else◌, Bool-cases, ok,
  ok-injective, subst, Result, store_lem, load-get_elem?, tally, tally-set, arith,
}
use cse344_assignments.Canteen.Room.{
  put_item, get_item, next, next_from, item_number, count_items, non_empty, count_non_empty,
  plate_empty,
}

-- 1 for a plate of the kind.
unfoldable pub is_kind : ℕ → ℕ → ℕ
is_kind item x = if x == item then 1 else 0

-- The plates of a kind in a room.
abbrev pub plates : ℕ → List ℕ → ℕ
plates item room = tally (is_kind item) room

count_items_lem :
    (room : List ℕ) (item total : ℕ)
    → count_items (length room) room item total ≡ ok (total + plates item room)
unfolding count_items is_kind tally
count_items_lem [] item total = ap ok (omega arith)
count_items_lem (x ∷ room) item total =
    count_items_lem room item (if x == item then total + 1 else total) ∙ ap ok (ground arith)

-- item_number on a whole room returns the number of its plates of the kind.
pub item_number_lem :
    (room : List ℕ) (item : ℕ) → item_number room (length room) item ≡ ok (plates item room)
unfolding item_number
item_number_lem room item = count_items_lem room item 0 ∙ ap ok (omega arith)

count_non_empty_lem :
    (room : List ℕ) (total : ℕ)
    → (n : ℕ) × (count_non_empty (length room) room total ≡ ok (total + n))
      × (n + plates plate_empty room ≡ length room)
unfolding count_non_empty is_kind tally
count_non_empty_lem [] total = (0, ap ok (omega arith), refl)
count_non_empty_lem (x ∷ room) total = elim (Bool-cases (x == plate_empty)) [
  | inl free ↦
      let (n, e, sum) = count_non_empty_lem room total in
      (n, ap (go total) free ∙ e, rw free (omega arith))
  | inr full ↦
      let (n, e, sum) = count_non_empty_lem room (total + 1) in
      (n + 1, ap (go total) full ∙ e ∙ ap ok (omega arith), rw full (omega arith))
]
  where
    go : ℕ → Bool → Result ℕ
    go total b = count_non_empty (length room) room (if b then total else total + 1)

-- non_empty on a whole room returns a number that together with the number of empty slots makes up
-- the size of the room.
pub non_empty_lem :
    (room : List ℕ)
    → (n : ℕ) × (non_empty room (length room) ≡ ok n) × (n + plates plate_empty room ≡ length room)
unfolding non_empty
non_empty_lem room =
    let (n, e, sum) = count_non_empty_lem room 0 in (n, e ∙ ap ok (omega arith), sum)

abbrev pub IsFirst : List ℕ → ℕ → ℕ → Type 0
IsFirst room item slot =
    (get_elem? room slot ≡ some item) × ((j : ℕ) → j < slot → get_elem? room j ≢ some item)

next_from_lem :
    (i : ℕ) (room : List ℕ) (item : ℕ)
    → ((next_from i (length room) room item ≡ ok none) × (plates item room ≡ 0))
      ⊎ ((slot : ℕ) × (next_from i (length room) room item ≡ ok (some (i + slot)))
          × IsFirst room item slot)
unfolding next_from is_kind tally
next_from_lem i [] item = inl (refl, refl)
next_from_lem i (x ∷ room) item = elim (Bool-cases (x == item)) [
  | inl here ↦ inr (
    0,
    rw here (ap ok (ap some (omega arith))),
    (ap some ((==_iff x item).0 here), λ j lt. absurd (omega arith)),
  )
  | inr other ↦ elim (next_from_lem (i + 1) room item) [
    | inl (e, none_left) ↦ inl (rw other e, rw other (omega (arith, none_left)))
    | inr (slot, e, (at, first)) ↦ inr (
      suc slot,
      rw other (e ∙ ap ok (ap some (omega arith))),
      (at, λ j lt found. before x room item slot other first j lt found),
    )
  ]
]
  where
    before :
        (x : ℕ) (room : List ℕ) (item slot : ℕ)
        → (x == item) ≡ false
        → ((j : ℕ) → j < slot → get_elem? room j ≢ some item)
        → (j : ℕ) → j < suc slot
        → get_elem? (x ∷ room) j ≢ some item
    before x room item slot other first zero lt found =
        let same : x ≡ item = ground arith in absurd (cc (other, (==_iff x item).1 same))
    before x room item slot other first (suc j) lt found = first j (omega arith) found

-- next on a whole room returns -1 if there is no plate of the kind, and otherwise the first slot
-- that holds one.
pub next_lem :
    (room : List ℕ) (item : ℕ)
    → ((next room (length room) item ≡ ok none) × (plates item room ≡ 0))
      ⊎ ((slot : ℕ) × (next room (length room) item ≡ ok (some slot)) × IsFirst room item slot)
unfolding next
next_lem room item = elim (next_from_lem 0 room item) [
  | inl none_left ↦ inl none_left
  | inr (slot, e, first) ↦ inr (slot, e ∙ ap ok (ap some (omega arith)), first)
]

-- Where there is a plate of the kind `next` finds one.
pub next_some :
    (room : List ℕ) (item : ℕ)
    → 0 < plates item room
    → (slot : ℕ) × (next room (length room) item ≡ ok (some slot))
      × (get_elem? room slot ≡ some item)
next_some room item some_left = elim (next_lem room item) [
  | inl (e, none_left) ↦ absurd (omega arith)
  | inr (slot, e, (at, first)) ↦ (slot, e, at)
]

-- A slot that `next` returned holds the kind.
pub next-eq-some :
    (room : List ℕ) (item slot size : ℕ)
    → length room ≡ size
    → next room size item ≡ ok (some slot)
    → get_elem? room slot ≡ some item
next-eq-some room item slot size sized e = elim (next_lem room item) [
  | inl (none_left, zero_left) ↦ absurd (none-ne-some (ok-injective (sym none_left ∙ e')))
  | inr (found, f, (at, first)) ↦
      let same : found ≡ slot = ground (arith, ok-injective (sym f ∙ e')) in
      subst (λ i. get_elem? room i ≡ some item) same at
]
  where
    e' : next room (length room) item ≡ ok (some slot)
    e' = ap (λ n. next room n item) sized ∙ e

    none-ne-some : {i : ℕ} → ¬ (none ≡ some i)
    none-ne-some h = cc

module _ (room : List ℕ) (slot : ℕ) {old : ℕ} (at : get_elem? room slot ≡ some old) where
  at-lt : slot < length room
  at-lt = go room slot at
    where
      go : (xs : List ℕ) (i : ℕ) {x : ℕ} → get_elem? xs i ≡ some x → i < length xs
      go [] i e = absurd (ground arith)
      go (x ∷ xs) zero e = omega arith
      go (x ∷ xs) (suc i) e = omega (arith, go xs i e)

  -- put_item onto a slot of the room succeeds, keeps the size of the room, and changes the number
  -- of plates of every kind by the new plate and what stood there.
  pub put_item_lem :
      (p : ℕ)
      → (room' : List ℕ) × (put_item room (some slot) p ≡ ok room')
        × (length room' ≡ length room)
        × ((item : ℕ) → plates item room' + is_kind item old ≡ plates item room + is_kind item p)
  unfolding put_item
  put_item_lem p = (
    set room slot p,
    store_lem room slot p at-lt,
    length-set room slot p,
    λ item. tally-set (is_kind item) room slot p at,
  )

  -- get_item from a slot of the room returns the plate on it, keeps the size of the room, and
  -- changes the number of plates of every kind by that plate and one empty slot.
  pub get_item_lem :
      (room' : List ℕ) × (get_item room (some slot) ≡ ok (old, room'))
      × (length room' ≡ length room)
      × ((item : ℕ)
          → plates item room' + is_kind item old ≡ plates item room + is_kind item plate_empty)
  unfolding get_item
  get_item_lem = (
    set room slot plate_empty,
    rw (load-get_elem? room slot at, store_lem room slot plate_empty at-lt),
    length-set room slot plate_empty,
    λ item. tally-set (is_kind item) room slot plate_empty at,
  )
