-- ===== src/Chefs/Bakery/Weights.antt =====
-- Sums over the chefs of homework-4/solution/source/program.c, by what each has taken and given.
use cse344_assignments.Base.{
  ℕ, zero, suc, ◌+◌, ◌*◌, ◌≤◌, ◌≡◌, refl, subst, some, List, [], ◌∷◌, get_elem?, set, replicate,
  arith,
}
use cse344_assignments.Chefs.Bakery.{
  Chef, looping, waiting, woken, taking, preparing, exiting, gone, chef_number,
}
use cse344_assignments.Chefs.Bakery.Semaphores.{hits}
use cse344_assignments.Chefs.Bakery.Pairs.{pair}

-- The sum of a weight of the chefs from number `j` on.
unfoldable pub weigh : (ℕ → Chef → ℕ) → ℕ → List Chef → ℕ
weigh f j [] = 0
weigh f j (c ∷ cs) = f j c + weigh f (suc j) cs

module _ (f : ℕ → Chef → ℕ) where
  weigh-set_from :
      (j : ℕ) (cs : List Chef) (i : ℕ) {c : Chef} (c' : Chef)
      → get_elem? cs i ≡ some c
      → weigh f j (set cs i c') + f (j + i) c ≡ weigh f j cs + f (j + i) c'
  unfolding weigh
  weigh-set_from j [] i c' e = absurd (ground arith)
  weigh-set_from j (b ∷ cs) zero {c} c' e =
      let same : b ≡ c = ground arith in
      let z : j + 0 ≡ j = omega arith in rw (z, same) (omega arith)
  weigh-set_from j (b ∷ cs) (suc i) c' e =
      let z : j + suc i ≡ suc j + i = omega arith in
      rw z (omega (arith, weigh-set_from (suc j) cs i c' e))

  pub weigh-set :
      (cs : List Chef) (i : ℕ) {c : Chef} (c' : Chef)
      → get_elem? cs i ≡ some c
      → weigh f 0 (set cs i c') + f i c ≡ weigh f 0 cs + f i c'
  weigh-set cs i {c} c' e =
      let z : 0 + i ≡ i = omega arith in
      subst (λ n. weigh f 0 (set cs i c') + f n c ≡ weigh f 0 cs + f n c') z
        (weigh-set_from 0 cs i c' e)

  weigh_one_from :
      (j : ℕ) (cs : List Chef) (i : ℕ) {c : Chef}
      → get_elem? cs i ≡ some c
      → f (j + i) c ≤ weigh f j cs
  unfolding weigh
  weigh_one_from j [] i e = absurd (ground arith)
  weigh_one_from j (b ∷ cs) zero {c} e =
      let same : b ≡ c = ground arith in
      let z : j + 0 ≡ j = omega arith in rw (z, same) (omega arith)
  weigh_one_from j (b ∷ cs) (suc i) e =
      let z : j + suc i ≡ suc j + i = omega arith in
      rw z (omega (arith, weigh_one_from (suc j) cs i e))

  -- A chef weighs no more than all.
  pub weigh_one :
      (cs : List Chef) (i : ℕ) {c : Chef} → get_elem? cs i ≡ some c → f i c ≤ weigh f 0 cs
  weigh_one cs i {c} e =
      let z : 0 + i ≡ i = omega arith in
      subst (λ n. f n c ≤ weigh f 0 cs) z (weigh_one_from 0 cs i e)

  pub weigh-replicate : (j n : ℕ) (c : Chef) → ((i : ℕ) → f i c ≡ 0) → weigh f j (replicate n c) ≡ 0
  unfolding weigh
  weigh-replicate j zero c e = refl
  weigh-replicate j (suc n) c e = omega (arith, e j, weigh-replicate (suc j) n c e)

-- A chef between its wake-up and the post of the dessert, and one that has not yet taken the delivery.
abbrev pub busy_one : ℕ → Chef → ℕ
busy_one i looping = 0
busy_one i waiting = 0
busy_one i woken = 1
busy_one i taking = 1
busy_one i preparing = 1
busy_one i (exiting n) = 0
busy_one i gone = 0

abbrev pub before_one : ℕ → Chef → ℕ
before_one i looping = 0
before_one i waiting = 0
before_one i woken = 1
before_one i taking = 1
before_one i preparing = 0
before_one i (exiting n) = 0
before_one i gone = 0

-- What the busy chefs hold of semaphore `k`.
abbrev pub held : ℕ → ℕ → Chef → ℕ
held k i looping = 0
held k i waiting = 0
held k i woken = hits k (pair i)
held k i taking = hits k (pair i)
held k i preparing = hits k (pair i)
held k i (exiting n) = 0
held k i gone = 0

-- The posts to semaphore `k` of the first `n` rounds of the loop of a chef's exit.
abbrev pub posts : ℕ → ℕ → ℕ
posts k zero = 0
posts k (suc n) = posts k n + hits k (pair n)

abbrev pub given : ℕ → ℕ → Chef → ℕ
given k i looping = 0
given k i waiting = 0
given k i woken = 0
given k i taking = 0
given k i preparing = 0
given k i (exiting n) = posts k n
given k i gone = posts k chef_number

-- What the chefs that have left the wait for the last time took at most.
abbrev pub taken : ℕ → ℕ → Chef → ℕ
taken k i looping = 0
taken k i waiting = 0
taken k i woken = hits k (pair i)
taken k i taking = 0
taken k i preparing = 0
taken k i (exiting n) = hits k (pair i)
taken k i gone = hits k (pair i)

hits-le-two : (k i : ℕ) → hits k (pair i) ≤ 2
hits-le-two k i = ground arith

-- Without a busy chef nothing is held, and no delivery is left to take.
pub held-le-busy : (k j : ℕ) (cs : List Chef) → weigh (held k) j cs ≤ 2 * weigh busy_one j cs
unfolding weigh
held-le-busy k j [] = omega arith
held-le-busy k j (c ∷ cs) = omega (arith, one c, held-le-busy k (suc j) cs)
  where
    one : (c : Chef) → held k j c ≤ 2 * busy_one j c
    one looping = omega arith
    one waiting = omega arith
    one woken = hits-le-two k j
    one taking = hits-le-two k j
    one preparing = hits-le-two k j
    one (exiting n) = omega arith
    one gone = omega arith

pub before-le-busy : (j : ℕ) (cs : List Chef) → weigh before_one j cs ≤ weigh busy_one j cs
unfolding weigh
before-le-busy j [] = omega arith
before-le-busy j (c ∷ cs) = omega (arith, one c, before-le-busy (suc j) cs)
  where
    one : (c : Chef) → before_one j c ≤ busy_one j c
    one looping = omega arith
    one waiting = omega arith
    one woken = omega arith
    one taking = omega arith
    one preparing = omega arith
    one (exiting n) = omega arith
    one gone = omega arith

-- What holds of each chef, with its number.
abbrev pub Each : (ℕ → Chef → Type 0) → List Chef → Type 0
Each P cs = (i : ℕ) (c : Chef) → get_elem? cs i ≡ some c → P i c

pub Each-set :
    (P : ℕ → Chef → Type 0) (cs : List Chef) (i : ℕ) (c' : Chef)
    → Each P cs
    → P i c'
    → Each P (set cs i c')
Each-set P [] i c' h p j c e = absurd (ground arith)
Each-set P (b ∷ cs) zero c' h p zero c e = let same : c' ≡ c = ground arith in subst (P 0) same p
Each-set P (b ∷ cs) zero c' h p (suc j) c e = h (suc j) c e
Each-set P (b ∷ cs) (suc i) c' h p zero c e = h 0 c e
Each-set P (b ∷ cs) (suc i) c' h p (suc j) c e =
    Each-set (λ n. P (suc n)) cs i c' (λ n. h (suc n)) p j c e

weigh_zero_from :
    (f : ℕ → Chef → ℕ) (j : ℕ) (cs : List Chef)
    → ((i : ℕ) (c : Chef) → get_elem? cs i ≡ some c → f (j + i) c ≡ 0)
    → weigh f j cs ≡ 0
unfolding weigh
weigh_zero_from f j [] h = refl
weigh_zero_from f j (c ∷ cs) h =
    let z : j + 0 ≡ j = omega arith in
    let one : f j c ≡ 0 = subst (λ n. f n c ≡ 0) z (h 0 c refl) in
    let rest : weigh f (suc j) cs ≡ 0 = weigh_zero_from f (suc j) cs (λ i c e.
      let next : j + suc i ≡ suc j + i = omega arith in
      subst (λ n. f n c ≡ 0) next (h (suc i) c e)) in
    omega (arith, one, rest)

pub weigh_zero : (f : ℕ → Chef → ℕ) (cs : List Chef) → Each (λ i c. f i c ≡ 0) cs → weigh f 0 cs ≡ 0
weigh_zero f cs h =
    weigh_zero_from f 0 cs
      (λ i c e. let z : i ≡ 0 + i = omega arith in subst (λ n. f n c ≡ 0) z (h i c e))
