-- ===== src/Chefs/Supply.antt =====
-- Every supply of two different ingredients is that of exactly one chef.
use cse344_assignments.Base.{
  ℕ, zero, suc, ◌≡◌, ◌≢◌, refl, ◌∙◌, ◌⊎◌, inl, inr, List, [], ◌∷◌, ok, err, assertion,
  out_of_bounds, ◌==◌, if◌then◌else◌, sym, arith,
}
use cse344_assignments.Chefs.{get_mask, sem_of_ingredients, next_supply}

-- The letter of the ingredient of each semaphore.
pub data IsLetter : ℕ → ℕ → Type 0 where
  letter_m : IsLetter b'M' 0
  letter_f : IsLetter b'F' 1
  letter_w : IsLetter b'W' 2
  letter_s : IsLetter b'S' 3

-- The place of a mask among those of the chefs.
position : ℕ → ℕ
position mask =
    if mask == 6
    then 0
    else if mask == 10
    then 1
    else if mask == 18
    then 2
    else if mask == 12
    then 3
    else if mask == 20
    then 4
    else 5

get_mask-position : (n mask : ℕ) → get_mask n ≡ ok mask → n ≡ position mask
unfolding get_mask position
get_mask-position zero mask e = ground arith
get_mask-position (suc zero) mask e = ground arith
get_mask-position (suc (suc zero)) mask e = ground arith
get_mask-position (suc (suc (suc zero))) mask e = ground arith
get_mask-position (suc (suc (suc (suc zero)))) mask e = ground arith
get_mask-position (suc (suc (suc (suc (suc zero))))) mask e = ground arith
get_mask-position (suc (suc (suc (suc (suc (suc n)))))) mask e = absurd (err-ne-ok e)
  where
    err-ne-ok : {m : ℕ} → ¬ (err out_of_bounds ≡ ok m)
    err-ne-ok h = cc

-- The supply that the wholesaler delivers, the chef that alone takes it, and its two semaphores.
abbrev pub IsSupply : ℕ → ℕ → ℕ → Type 0
IsSupply mask i j =
    ((n : ℕ) × (get_mask n ≡ ok mask) × ((n' : ℕ) → get_mask n' ≡ ok mask → n' ≡ n))
    × ((x y : ℕ)
        → (sem_of_ingredients mask (x ∷ y ∷ []) ≡ ok (i ∷ j ∷ []))
          ⊎ (sem_of_ingredients mask (x ∷ y ∷ []) ≡ ok (j ∷ i ∷ [])))

alone : (mask n : ℕ) → get_mask n ≡ ok mask → (n' : ℕ) → get_mask n' ≡ ok mask → n' ≡ n
alone mask n e n' e' = get_mask-position n' mask e' ∙ sym (get_mask-position n mask e)

-- For three bytes of the supply file that begin with the letters of two different ingredients, in
-- either order, next_supply returns a mask that exactly one chef has and leaves the rest of the
-- file, and sem_of_ingredients of the mask gives the semaphores of the two.
pub next_supply-IsSupply :
    (a b i j newline : ℕ) (fd : List ℕ)
    → IsLetter a i
    → IsLetter b j
    → i ≢ j
    → (mask : ℕ) × (next_supply (a ∷ b ∷ newline ∷ fd) ≡ ok (mask, fd)) × IsSupply mask i j
unfolding next_supply get_mask sem_of_ingredients
next_supply-IsSupply a b i j newline fd letter_m letter_m ne = absurd (ne refl)
next_supply-IsSupply a b i j newline fd letter_m letter_f ne =
    (6, refl, ((0, refl, alone 6 0 refl), λ x y. inl refl))
next_supply-IsSupply a b i j newline fd letter_m letter_w ne =
    (10, refl, ((1, refl, alone 10 1 refl), λ x y. inl refl))
next_supply-IsSupply a b i j newline fd letter_m letter_s ne =
    (18, refl, ((2, refl, alone 18 2 refl), λ x y. inl refl))
next_supply-IsSupply a b i j newline fd letter_f letter_m ne =
    (6, refl, ((0, refl, alone 6 0 refl), λ x y. inr refl))
next_supply-IsSupply a b i j newline fd letter_f letter_f ne = absurd (ne refl)
next_supply-IsSupply a b i j newline fd letter_f letter_w ne =
    (12, refl, ((3, refl, alone 12 3 refl), λ x y. inl refl))
next_supply-IsSupply a b i j newline fd letter_f letter_s ne =
    (20, refl, ((4, refl, alone 20 4 refl), λ x y. inl refl))
next_supply-IsSupply a b i j newline fd letter_w letter_m ne =
    (10, refl, ((1, refl, alone 10 1 refl), λ x y. inr refl))
next_supply-IsSupply a b i j newline fd letter_w letter_f ne =
    (12, refl, ((3, refl, alone 12 3 refl), λ x y. inr refl))
next_supply-IsSupply a b i j newline fd letter_w letter_w ne = absurd (ne refl)
next_supply-IsSupply a b i j newline fd letter_w letter_s ne =
    (24, refl, ((5, refl, alone 24 5 refl), λ x y. inl refl))
next_supply-IsSupply a b i j newline fd letter_s letter_m ne =
    (18, refl, ((2, refl, alone 18 2 refl), λ x y. inr refl))
next_supply-IsSupply a b i j newline fd letter_s letter_f ne =
    (20, refl, ((4, refl, alone 20 4 refl), λ x y. inr refl))
next_supply-IsSupply a b i j newline fd letter_s letter_w ne =
    (24, refl, ((5, refl, alone 24 5 refl), λ x y. inr refl))
next_supply-IsSupply a b i j newline fd letter_s letter_s ne = absurd (ne refl)

-- For three bytes of the supply file that begin with the same letter twice next_supply returns a
-- mask on which the assertion of sem_of_ingredients fails.
pub next_supply_twice :
    (a i newline : ℕ) (fd : List ℕ)
    → IsLetter a i
    → (mask : ℕ) × (next_supply (a ∷ a ∷ newline ∷ fd) ≡ ok (mask, fd))
      × ((x y : ℕ) → sem_of_ingredients mask (x ∷ y ∷ []) ≡ err assertion)
unfolding next_supply sem_of_ingredients
next_supply_twice a i newline fd letter_m = (2, refl, λ x y. refl)
next_supply_twice a i newline fd letter_f = (4, refl, λ x y. refl)
next_supply_twice a i newline fd letter_w = (8, refl, λ x y. refl)
next_supply_twice a i newline fd letter_s = (16, refl, λ x y. refl)
