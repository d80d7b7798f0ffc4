-- ===== src/Canteen/Setup/Shares.antt =====
-- The semaphores of the counter share out its slots among the kinds of food.
use cse344_assignments.Base.{
  ℕ, ◌+◌, ◌/◌, ◌%◌, ◌≤◌, ◌≡◌, true, leb, refl, ◌⊎◌, inl, inr, [], ◌∷◌, ok, replicate, arith,
}
use cse344_assignments.Libc.{int_max}
use cse344_assignments.Canteen.Room.{plate_empty, food_kind}
use cse344_assignments.Canteen.Setup.{init}

three : (n : ℕ) → (n % 3 ≡ 0) ⊎ ((n % 3 ≡ 1) ⊎ (n % 3 ≡ 2))
three n = ground arith

module _ (deliver s a b c d e f : ℕ) (small : leb deliver int_max ≡ true) where
  -- init of a room of s slots with the dividor FOOD_KIND, whatever the memory of the semaphores
  -- held, leaves an empty room, open mutexes, no full slot and three empty counts that add up to
  -- s, from the largest to the smallest, and differ by at most 1, when the plates to deliver are at
  -- most INT_MAX.
  pub init_shares :
      (p : ℕ) × (q : ℕ) × (r : ℕ) × (init deliver s s food_kind (a ∷ b ∷ c ∷ []) (d ∷ e ∷ f ∷ [])
        ≡ ok (record {
          room = replicate s plate_empty;
          room_mutex = 1;
          peek_mutex = 1;
          empty = p ∷ q ∷ r ∷ [];
          full = 0 ∷ 0 ∷ 0 ∷ [];
          peek = deliver;
        }))
      × (p + q + r ≡ s)
      × (q ≤ p)
      × (r ≤ q)
      × (p ≤ r + 1)
  unfolding init
  init_shares = elim (three s) [
    | inl h ↦ (
      s / 3,
      s / 3,
      s / 3,
      rw (small, h) refl,
      omega arith,
      omega arith,
      omega arith,
      omega arith,
    )
    | inr (inl h) ↦ (
      s / 3 + 1,
      s / 3,
      s / 3,
      rw (small, h) refl,
      omega arith,
      omega arith,
      omega arith,
      omega arith,
    )
    | inr (inr h) ↦ (
      s / 3 + 1,
      s / 3 + 1,
      s / 3,
      rw (small, h) refl,
      omega arith,
      omega arith,
      omega arith,
      omega arith,
    )
  ]
