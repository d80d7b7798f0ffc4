-- ===== src/Chefs/Bakery/Semaphores.antt =====
-- What the two calls of homework-4/solution/source/utils.c do to each of the semaphores.
use cse344_assignments.Base.{
  ℕ, zero, suc, ◌+◌, ◌≤◌, ◌<◌, ◌≡◌, ◌≢◌, refl, ap, ◌∙◌, subst, Option, none, some, List, [], ◌∷◌,
  length, get_or, ◌==◌, if◌then◌else◌, Result, ok, ok-injective, >>=-eq-ok, ◌>>=◌, arith,
}
use cse344_assignments.Chefs.Bakery.{add_one, take_one, behind, system_v_sempost, system_v_semwait}

abbrev pub hit : ℕ → ℕ → ℕ
hit k i = if i == k then 1 else 0

-- How often semaphore `k` is in an index.
abbrev pub hits : ℕ → List ℕ → ℕ
hits k [] = 0
hits k (i ∷ index) = hit k i + hits k index

-- What all of the semaphores hold.
unfoldable pub sum : List ℕ → ℕ
sum [] = 0
sum (v ∷ sems) = v + sum sems

pub get_or-le-sum : (sems : List ℕ) (k : ℕ) → get_or sems k 0 ≤ sum sems
unfolding sum
get_or-le-sum [] k = omega arith
get_or-le-sum (v ∷ sems) zero = omega arith
get_or-le-sum (v ∷ sems) (suc k) = omega (arith, get_or-le-sum sems k)

-- `ups` is `sems` with one more at `i`.
abbrev IsUp : List ℕ → ℕ → List ℕ → Type 0
IsUp sems i ups =
    ((k : ℕ) → get_or ups k 0 ≡ get_or sems k 0 + hit k i)
    × (length ups ≡ length sems)
    × (sum ups ≡ sum sems + 1)

IsUp-here : (v : ℕ) (sems : List ℕ) → IsUp (v ∷ sems) 0 (suc v ∷ sems)
unfolding sum
IsUp-here v sems = (at, refl, omega arith)
  where
    at : (k : ℕ) → get_or (suc v ∷ sems) k 0 ≡ get_or (v ∷ sems) k 0 + hit k 0
    at zero = omega arith
    at (suc k) = ground arith

IsUp-there : (v i : ℕ) (sems ups : List ℕ) → IsUp sems i ups → IsUp (v ∷ sems) (suc i) (v ∷ ups)
unfolding sum
IsUp-there v i sems ups (up, len, more) = (at, ap suc len, omega (arith, more))
  where
    at : (k : ℕ) → get_or (v ∷ ups) k 0 ≡ get_or (v ∷ sems) k 0 + hit k (suc i)
    at zero = ground arith
    at (suc k) = ground (arith, up k)

add_one_lem : (sems : List ℕ) (i : ℕ) {ups : List ℕ} → add_one sems i ≡ ok ups → IsUp sems i ups
unfolding add_one
add_one_lem [] i e = absurd (ground arith)
add_one_lem (v ∷ sems) zero e = subst (IsUp (v ∷ sems) 0) (up ∙ ok-injective e) (IsUp-here v sems)
  where
    up : suc v ∷ sems ≡ (v + 1) ∷ sems
    up = ap (λ n. n ∷ sems) (omega arith)
add_one_lem (v ∷ sems) (suc i) e =
    let (ups, f, g) = >>=-eq-ok (add_one sems i) _ e in
    subst (IsUp (v ∷ sems) (suc i)) (ok-injective g)
      (IsUp-there v i sems ups (add_one_lem sems i f))

add_one_total :
    (sems : List ℕ) (i : ℕ) → i < length sems → (ups : List ℕ) × (add_one sems i ≡ ok ups)
unfolding add_one
add_one_total [] i lt = elim lt [ ]
add_one_total (v ∷ sems) zero lt = ((v + 1) ∷ sems, refl)
add_one_total (v ∷ sems) (suc i) lt =
    let (ups, e) = add_one_total sems i (omega arith) in (v ∷ ups, rw e refl)

some-injective : {a b : List ℕ} → ok (some a) ≡ ok (some b) → a ≡ b
some-injective e = ground arith

-- The semaphores behind the first one.
behind-eq-ok :
    (v : ℕ) (sems : List ℕ) (i : ℕ) {downs : List ℕ}
    → (take_one sems i >>= λ taken. ok (behind v taken)) ≡ ok (some downs)
    → (rest : List ℕ) × (take_one sems i ≡ ok (some rest)) × (v ∷ rest ≡ downs)
behind-eq-ok v sems i {downs} e =
    let (taken, f, g) = >>=-eq-ok (take_one sems i) _ e in by taken f g
  where
    by :
        (taken : Option (List ℕ))
        → take_one sems i ≡ ok taken
        → ok (behind v taken) ≡ ok (some downs)
        → (rest : List ℕ) × (take_one sems i ≡ ok (some rest)) × (v ∷ rest ≡ downs)
    by none f g = absurd (ground arith)
    by (some rest) f g = (rest, f, some-injective g)

take_one_lem :
    (sems : List ℕ) (i : ℕ) {downs : List ℕ} → take_one sems i ≡ ok (some downs) → IsUp downs i sems
unfolding take_one
take_one_lem [] i e = absurd (ground arith)
take_one_lem (zero ∷ sems) zero e = absurd (ground arith)
take_one_lem (suc v ∷ sems) zero e =
    subst (λ downs. IsUp downs 0 (suc v ∷ sems)) (some-injective e) (IsUp-here v sems)
take_one_lem (zero ∷ sems) (suc i) e =
    let (rest, f, g) = behind-eq-ok 0 sems i e in
    subst (λ downs. IsUp downs (suc i) (0 ∷ sems)) g
      (IsUp-there 0 i rest sems (take_one_lem sems i f))
take_one_lem (suc v ∷ sems) (suc i) e =
    let (rest, f, g) = behind-eq-ok (suc v) sems i e in
    subst (λ downs. IsUp downs (suc i) (suc v ∷ sems)) g
      (IsUp-there (suc v) i rest sems (take_one_lem sems i f))

take_one_total :
    (sems : List ℕ) (i : ℕ)
    → i < length sems
    → 0 < get_or sems i 0
    → (downs : List ℕ) × (take_one sems i ≡ ok (some downs))
unfolding take_one
take_one_total [] i lt pos = elim lt [ ]
take_one_total (zero ∷ sems) zero lt pos = absurd (omega arith)
take_one_total (suc v ∷ sems) zero lt pos = (v ∷ sems, refl)
take_one_total (zero ∷ sems) (suc i) lt pos =
    let (downs, e) = take_one_total sems i (omega arith) pos in (zero ∷ downs, rw e refl)
take_one_total (suc v ∷ sems) (suc i) lt pos =
    let (downs, e) = take_one_total sems i (omega arith) pos in (suc v ∷ downs, rw e refl)

-- `ups` is `sems` with one more for each number of the index.
abbrev pub Ups : List ℕ → List ℕ → List ℕ → Type 0
Ups sems index ups =
    ((k : ℕ) → get_or ups k 0 ≡ get_or sems k 0 + hits k index)
    × (length ups ≡ length sems)
    × (sum ups ≡ sum sems + 2)

both :
    (sems mid ups : List ℕ) (i j : ℕ) → IsUp sems i mid → IsUp mid j ups → Ups sems (i ∷ j ∷ []) ups
both sems mid ups i j (first, same, more) (second, same', more') =
    (λ k. omega (arith, first k, second k), same' ∙ same, omega (arith, more, more'))

module _ (sems : List ℕ) (i j : ℕ) where
  pub sempost_lem :
      {ups : List ℕ} → system_v_sempost sems (i ∷ j ∷ []) ≡ ok ups → Ups sems (i ∷ j ∷ []) ups
  unfolding system_v_sempost
  sempost_lem {ups} e =
      let (mid, f, g) = >>=-eq-ok (add_one sems i) _ e in
      both sems mid ups i j (add_one_lem sems i f) (add_one_lem mid j g)

  pub sempost_total :
      i < length sems
      → j < length sems
      → (ups : List ℕ) × (system_v_sempost sems (i ∷ j ∷ []) ≡ ok ups)
  unfolding system_v_sempost
  sempost_total lt lt' =
      let (mid, e) = add_one_total sems i lt in
      let (up, same, more) = add_one_lem sems i e in
      let (ups, f) = add_one_total mid j (omega arith) in (ups, rw (e, f) refl)

  pub semwait_lem :
      {downs : List ℕ}
      → system_v_semwait sems (i ∷ j ∷ []) ≡ ok (some downs)
      → Ups downs (i ∷ j ∷ []) sems
  unfolding system_v_semwait
  semwait_lem {downs} e = let (taken, f, g) = >>=-eq-ok (take_one sems i) _ e in by taken f g
    where
      by :
          (taken : Option (List ℕ))
          → take_one sems i ≡ ok taken
          → elim taken as (λ _. Result (Option (List ℕ))) [
            | none ↦ ok none
            | some sems' ↦ take_one sems' j
          ]
            ≡ ok (some downs)
          → Ups downs (i ∷ j ∷ []) sems
      by none f g = absurd (ground arith)
      by (some mid) f g =
          let (up, len, more) =
            both downs mid sems j i (take_one_lem mid j g) (take_one_lem sems i f) in
          (λ k. omega (arith, up k), len, more)

  pub semwait_total :
      i ≢ j
      → i < length sems
      → j < length sems
      → 0 < get_or sems i 0
      → 0 < get_or sems j 0
      → (downs : List ℕ) × (system_v_semwait sems (i ∷ j ∷ []) ≡ ok (some downs))
  unfolding system_v_semwait
  semwait_total ne lt lt' pos pos' =
      let (mid, e) = take_one_total sems i lt pos in
      let (down, same, less) = take_one_lem sems i e in
      let d = down j in
      let (downs, f) = take_one_total mid j (omega arith) (ground arith) in (downs, rw (e, f) refl)
