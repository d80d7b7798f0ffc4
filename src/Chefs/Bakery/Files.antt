-- ===== src/Chefs/Bakery/Files.antt =====
-- The supply files of homework-4 whose lines name two different ingredients each.
use cse344_assignments.Base.{
  ℕ, zero, suc, ◌+◌, ◌<◌, ◌≡◌, ◌≢◌, refl, ap, ◌∙◌, inl, inr, List, [], ◌∷◌, length, ok, err,
  out_of_bounds, arith,
}
use cse344_assignments.Chefs.{get_mask, sem_of_ingredients, next_supply}
use cse344_assignments.Chefs.Supply.{IsLetter, IsSupply, next_supply-IsSupply}
use cse344_assignments.Chefs.Bakery.{chef_number}
use cse344_assignments.Chefs.Bakery.Pairs.{pair, IsIndex-pair}

-- Lines of three bytes, and at the end less than a line.
pub data IsFile : List ℕ → Type 0 where
  over : {fd : List ℕ} → length fd < 3 → IsFile fd
  line :
      {a b i j newline : ℕ} {fd : List ℕ}
      → IsLetter a i
      → IsLetter b j
      → i ≢ j
      → IsFile fd
      → IsFile (a ∷ b ∷ newline ∷ fd)

-- The supply of chef `n`.
abbrev pub IsSupplyOf : ℕ → ℕ → Type 0
IsSupplyOf n mask =
    (n < chef_number)
    × (get_mask n ≡ ok mask)
    × (mask ≢ 0)
    × ((x y : ℕ) → sem_of_ingredients mask (x ∷ y ∷ []) ≡ ok (pair n))

get_mask_pos : (n mask : ℕ) → get_mask n ≡ ok mask → mask ≢ 0
unfolding get_mask
get_mask_pos zero mask e = ground arith
get_mask_pos (suc zero) mask e = ground arith
get_mask_pos (suc (suc zero)) mask e = ground arith
get_mask_pos (suc (suc (suc zero))) mask e = ground arith
get_mask_pos (suc (suc (suc (suc zero)))) mask e = ground arith
get_mask_pos (suc (suc (suc (suc (suc zero))))) mask e = ground arith
get_mask_pos (suc (suc (suc (suc (suc (suc n)))))) mask e = absurd (err-ne-ok e)
  where
    err-ne-ok : {m : ℕ} → ¬ (err out_of_bounds ≡ ok m)
    err-ne-ok h = cc

supply-pair : (mask i j : ℕ) → IsSupply mask i j → (n : ℕ) × IsSupplyOf n mask
supply-pair mask i j ((n, e, alone), found) =
    (n, ((IsIndex-pair n (mask, 0, 0, e, first)).0, e, get_mask_pos n mask e, at))
  where
    index : (x y : ℕ) → (index : List ℕ) × (sem_of_ingredients mask (x ∷ y ∷ []) ≡ ok index)
    index x y = elim (found x y) [ inl f ↦ (i ∷ j ∷ [], f) | inr f ↦ (j ∷ i ∷ [], f) ]

    first : sem_of_ingredients mask (0 ∷ 0 ∷ []) ≡ ok (index 0 0).0
    first = (index 0 0).1

    at : (x y : ℕ) → sem_of_ingredients mask (x ∷ y ∷ []) ≡ ok (pair n)
    at x y = let (l, f) = index x y in f ∙ ap ok (IsIndex-pair n (mask, x, y, e, f)).1

-- What `next_supply` returns on such a file.
pub data IsNext (fd : List ℕ) : Type 0 where
  at_end : length fd < 3 → next_supply fd ≡ ok (0, []) → IsNext fd
  supply :
      (n mask : ℕ) {rest : List ℕ}
      → next_supply fd ≡ ok (mask, rest)
      → IsSupplyOf n mask
      → IsFile rest
      → length fd ≡ length rest + 3
      → IsNext fd

pub next_short : (fd : List ℕ) → length fd < 3 → next_supply fd ≡ ok (0, [])
unfolding next_supply
next_short [] lt = refl
next_short (a ∷ []) lt = refl
next_short (a ∷ b ∷ []) lt = refl
next_short (a ∷ b ∷ c ∷ fd) lt = absurd (omega arith)

pub IsFile-IsNext : {fd : List ℕ} → IsFile fd → IsNext fd
IsFile-IsNext {fd} (over lt) = at_end lt (next_short fd lt)
IsFile-IsNext (line {a} {b} {i} {j} {newline} {fd} p q ne rest) =
    let (mask, e, s) = next_supply-IsSupply a b i j newline fd p q ne in
    let (n, of) = supply-pair mask i j s in supply n mask e of rest (omega arith)
