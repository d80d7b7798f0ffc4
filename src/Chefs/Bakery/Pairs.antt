-- ===== src/Chefs/Bakery/Pairs.antt =====
-- The two semaphores of each chef of homework-4/solution/source/program.c.
use cse344_assignments.Base.{
  ℕ, zero, suc, ◌≤◌, ◌<◌, ◌≡◌, refl, sym, ◌∙◌, subst, Bool, true, not, ◌&&◌, ◌||◌, List, [], ◌∷◌,
  ◌==◌, if◌then◌else◌, leb, ok, err, out_of_bounds, ok-injective, arith,
}
use cse344_assignments.Chefs.{get_mask, sem_of_ingredients}
use cse344_assignments.Chefs.Bakery.{IsIndex, chef_number, ingredient_number}
use cse344_assignments.Chefs.Bakery.Semaphores.{hits}

abbrev pub first : ℕ → ℕ
first i =
    if i == 0
    then 0
    else if i == 1
    then 0
    else if i == 2
    then 0
    else if i == 3
    then 1
    else if i == 4
    then 1
    else 2

abbrev pub second : ℕ → ℕ
second i =
    if i == 0
    then 1
    else if i == 1
    then 2
    else if i == 2
    then 3
    else if i == 3
    then 2
    else if i == 4
    then 3
    else 3

abbrev pub pair : ℕ → List ℕ
pair i = first i ∷ second i ∷ []

pub pair_range : (i : ℕ) → (first i < second i) × (second i < ingredient_number)
pair_range i = ground arith

-- Below six, by evaluation.
all_below : ℕ → (ℕ → Bool) → Bool
all_below zero test = true
all_below (suc n) test = test n && all_below n test

all_below_lem : (n : ℕ) (test : ℕ → Bool) (i : ℕ) → all_below n test ≡ true → i < n → test i ≡ true
unfolding all_below
all_below_lem zero test i e lt = absurd (omega arith)
all_below_lem (suc n) test i e lt = ground (arith, all_below_lem n test i)

-- No chef's pair is within that of another.
within : ℕ → ℕ → ℕ → ℕ → ℕ → ℕ → ℕ → ℕ → ℕ → ℕ → Bool
within a a' b b' c c' d d' i n = not (leb a a' && leb b b' && leb c c' && leb d d') || (i == n)

within_lem :
    (a a' b b' c c' d d' i n : ℕ)
    → within a a' b b' c c' d d' i n ≡ true
    → a ≤ a'
    → b ≤ b'
    → c ≤ c'
    → d ≤ d'
    → i ≡ n
unfolding within
within_lem a a' b b' c c' d d' i n e le1 le2 le3 le4 = ground arith

alone : ℕ → ℕ → Bool
alone i n =
    let p = pair i in
    let q = pair n in
    within (hits 0 p) (hits 0 q) (hits 1 p) (hits 1 q) (hits 2 p) (hits 2 q) (hits 3 p) (hits 3 q) i
      n

all_alone : all_below 6 (λ i. all_below 6 (alone i)) ≡ true
unfolding all_below alone within
all_alone = refl

pub pair_le :
    (i n : ℕ)
    → i < chef_number
    → n < chef_number
    → ((k : ℕ) → hits k (pair i) ≤ hits k (pair n))
    → i ≡ n
unfolding alone
pair_le i n lt lt' le =
    let row = all_below_lem 6 (λ i. all_below 6 (alone i)) i all_alone lt in
    within_lem _ _ _ _ _ _ _ _ i n (all_below_lem 6 (alone i) n row lt') (le 0) (le 1) (le 2) (le 3)

pub hits-first : (i : ℕ) → 0 < hits (first i) (pair i)
hits-first i = ground arith

pub hits-second : (i : ℕ) → 0 < hits (second i) (pair i)
hits-second i = ground arith

index-eq :
    (mask m x y : ℕ) (index index' : List ℕ)
    → ok mask ≡ ok m
    → sem_of_ingredients mask (x ∷ y ∷ []) ≡ ok index'
    → sem_of_ingredients m (x ∷ y ∷ []) ≡ ok index
    → index ≡ index'
index-eq mask m x y index index' g f e =
    ok-injective
      (sym (subst (λ m. sem_of_ingredients m (x ∷ y ∷ []) ≡ ok index) (sym (ok-injective g)) e) ∙ f)

-- What `sem_of_ingredients` finds for a chef.
pub IsIndex-pair : (i : ℕ) {index : List ℕ} → IsIndex i index → (i < chef_number) × (index ≡ pair i)
unfolding get_mask sem_of_ingredients
IsIndex-pair zero {index} (m, x, y, g, e) = (omega arith, index-eq 6 m x y index _ g refl e)
IsIndex-pair (suc zero) {index} (m, x, y, g, e) = (omega arith, index-eq 10 m x y index _ g refl e)
IsIndex-pair (suc (suc zero)) {index} (m, x, y, g, e) =
    (omega arith, index-eq 18 m x y index _ g refl e)
IsIndex-pair (suc (suc (suc zero))) {index} (m, x, y, g, e) =
    (omega arith, index-eq 12 m x y index _ g refl e)
IsIndex-pair (suc (suc (suc (suc zero)))) {index} (m, x, y, g, e) =
    (omega arith, index-eq 20 m x y index _ g refl e)
IsIndex-pair (suc (suc (suc (suc (suc zero))))) {index} (m, x, y, g, e) =
    (omega arith, index-eq 24 m x y index _ g refl e)
IsIndex-pair (suc (suc (suc (suc (suc (suc n)))))) (m, x, y, g, e) = absurd (err-ne-ok g)
  where
    err-ne-ok : ¬ (err out_of_bounds ≡ ok m)
    err-ne-ok h = cc

pub pair-IsIndex : (i : ℕ) → i < chef_number → IsIndex i (pair i)
unfolding get_mask sem_of_ingredients
pair-IsIndex zero lt = (6, 0, 0, refl, refl)
pair-IsIndex (suc zero) lt = (10, 0, 0, refl, refl)
pair-IsIndex (suc (suc zero)) lt = (18, 0, 0, refl, refl)
pair-IsIndex (suc (suc (suc zero))) lt = (12, 0, 0, refl, refl)
pair-IsIndex (suc (suc (suc (suc zero)))) lt = (20, 0, 0, refl, refl)
pair-IsIndex (suc (suc (suc (suc (suc zero))))) lt = (24, 0, 0, refl, refl)
pair-IsIndex (suc (suc (suc (suc (suc (suc n)))))) lt = absurd (omega arith)
