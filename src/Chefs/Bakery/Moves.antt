-- ===== src/Chefs/Bakery/Moves.antt =====
-- Which chefs of homework-4/solution/source/program.c can make a step.
use cse344_assignments.Base.{
  ℕ, zero, suc, ◌≤◌, ◌<◌, ◌≡◌, refl, sym, ap, ◌∙◌, subst, ◌⊎◌, inl, inr, Bool-cases, some, List, [],
  ◌∷◌, length, get_or, get_elem?, dec_lt, ok, arith,
}
use cse344_assignments.Chefs.Bakery.{
  Chef, looping, waiting, woken, taking, preparing, exiting, gone, Bakery, chef_number,
  ingredient_number, Step, enter, leave, wake, stay, break, take_delivery, post_dessert,
  wake_others, exit, system_v_sempost,
}
use cse344_assignments.Chefs.Bakery.Semaphores.{hits, sempost_total, semwait_total}
use cse344_assignments.Chefs.Bakery.Pairs.{
  pair, first, second, pair_range, hits-first, hits-second, pair-IsIndex,
}
use cse344_assignments.Chefs.Bakery.Weights.{Each}

abbrev pub CanStep : Bakery → Type 0
CanStep s = (t : Bakery) × Step s t

-- A chef that need not wait.
abbrev pub IsActive : Chef → Type 0
IsActive looping = Unit
IsActive waiting = ⊥
IsActive woken = Unit
IsActive taking = Unit
IsActive preparing = Unit
IsActive (exiting n) = Unit
IsActive gone = ⊥

pub sempost_pair :
    (sems : List ℕ) (n : ℕ)
    → length sems ≡ ingredient_number
    → (ups : List ℕ) × (system_v_sempost sems (pair n) ≡ ok ups)
sempost_pair sems n four =
    let (lt, lt') = pair_range n in
    sempost_total sems (first n) (second n) (omega arith) (omega arith)

module _ (s : Bakery) (four : length s.sems ≡ ingredient_number) where
  pub active_steps : (i : ℕ) (c : Chef) → get_elem? s.chefs i ≡ some c → IsActive c → CanStep s
  active_steps i looping at a = elim (Bool-cases s.finished) [
    | inl f ↦ (_, leave i at f)
    | inr f ↦ (_, enter i at f)
  ]
  active_steps i waiting at a = elim a [ ]
  active_steps i woken at a = elim (Bool-cases s.finished) [
    | inl f ↦ (_, break i at f)
    | inr f ↦ (_, stay i at f)
  ]
  active_steps i taking at a = (_, take_delivery i at)
  active_steps i preparing at a = (_, post_dessert i at)
  active_steps i (exiting n) at a = elim (dec_lt n chef_number) [
    | yes lt ↦
        let (ups, e) = sempost_pair s.sems n four in
        (_, wake_others i n at lt (pair-IsIndex n lt) e)
    | no over ↦ (_, exit i n at (omega arith))
  ]
  active_steps i gone at a = elim a [ ]

  -- A chef whose two semaphores are up.
  pub wakes :
      (i : ℕ)
      → i < chef_number
      → get_elem? s.chefs i ≡ some waiting
      → ((k : ℕ) → k < ingredient_number → hits k (pair i) ≤ get_or s.sems k 0)
      → CanStep s
  wakes i lt at up =
      let (less, in_range) = pair_range i in
      let (downs, e) =
        semwait_total s.sems (first i) (second i) (omega arith) (omega arith) (omega arith)
          (omega (arith, up (first i) (omega arith), hits-first i))
          (omega (arith, up (second i) in_range, hits-second i)) in
      (_, wake i at (pair-IsIndex i lt) e)

-- A chef that waits or is gone.
abbrev pub IsIdle : ℕ → Chef → Type 0
IsIdle i c = (c ≡ waiting) ⊎ (c ≡ gone)

abbrev pub Found : List Chef → Type 0
Found cs = ((i : ℕ) × (c : Chef) × (get_elem? cs i ≡ some c) × IsActive c) ⊎ Each IsIdle cs

-- A chef that need not wait, if there is one.
pub find_active : (cs : List Chef) → Found cs
find_active [] = inr (λ i c e. absurd (ground arith))
find_active (b ∷ cs) = head b (find_active cs)
  where
    keep : (b : Chef) → IsIdle 0 b → Each IsIdle cs → Each IsIdle (b ∷ cs)
    keep b p rest zero c e = let same : b ≡ c = ground arith in subst (IsIdle zero) same p
    keep b p rest (suc i) c e = rest i c e

    further : (b : Chef) → IsIdle 0 b → Found cs → Found (b ∷ cs)
    further b p (inl (i, c, e, a)) = inl (suc i, c, e, a)
    further b p (inr rest) = inr (keep b p rest)

    head : (b : Chef) → Found cs → Found (b ∷ cs)
    head looping rest = inl (0, looping, refl, tt)
    head waiting rest = further waiting (inl refl) rest
    head woken rest = inl (0, woken, refl, tt)
    head taking rest = inl (0, taking, refl, tt)
    head preparing rest = inl (0, preparing, refl, tt)
    head (exiting n) rest = inl (0, exiting n, refl, tt)
    head gone rest = further gone (inr refl) rest

-- Of chefs at two places one at the second, or none.
find_other :
    (a b : Chef) (cs : List Chef)
    → Each (λ i c. (c ≡ a) ⊎ (c ≡ b)) cs
    → ((i : ℕ) × (get_elem? cs i ≡ some b)) ⊎ Each (λ i c. c ≡ a) cs
find_other a b [] h = inr (λ i c e. absurd (ground arith))
find_other a b (d ∷ cs) h = by (h 0 d refl) (find_other a b cs (λ i. h (suc i)))
  where
    keep : d ≡ a → Each (λ i c. c ≡ a) cs → Each (λ i c. c ≡ a) (d ∷ cs)
    keep p rest zero c e = let same : d ≡ c = ground arith in sym same ∙ p
    keep p rest (suc i) c e = rest i c e

    by :
        (d ≡ a) ⊎ (d ≡ b)
        → ((i : ℕ) × (get_elem? cs i ≡ some b)) ⊎ Each (λ i c. c ≡ a) cs
        → ((i : ℕ) × (get_elem? (d ∷ cs) i ≡ some b)) ⊎ Each (λ i c. c ≡ a) (d ∷ cs)
    by (inr g) rest = inl (0, ap some g)
    by (inl p) (inl (i, e)) = inl (suc i, e)
    by (inl p) (inr rest) = inr (keep p rest)

pub find_gone :
    (cs : List Chef)
    → Each IsIdle cs
    → ((i : ℕ) × (get_elem? cs i ≡ some gone)) ⊎ Each (λ i c. c ≡ waiting) cs
find_gone cs h = find_other waiting gone cs h

pub find_waiting :
    (cs : List Chef)
    → Each IsIdle cs
    → ((i : ℕ) × (get_elem? cs i ≡ some waiting)) ⊎ Each (λ i c. c ≡ gone) cs
find_waiting cs h = find_other gone waiting cs (λ i c at. turn (h i c at))
  where
    turn : {c : Chef} → (c ≡ waiting) ⊎ (c ≡ gone) → (c ≡ gone) ⊎ (c ≡ waiting)
    turn (inl e) = inr e
    turn (inr e) = inl e
