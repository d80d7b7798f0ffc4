-- ===== src/Chefs/Bakery/Progress.antt =====
-- Before the wholesaler of homework-4/solution/source/program.c sets `finished`, some thread can make
-- a step.
use cse344_assignments.Base.{
  ℕ, zero, suc, ◌+◌, ◌≤◌, ◌<◌, ◌≡◌, refl, sym, ap, ◌∙◌, subst, inl, inr, some, List, [], ◌∷◌,
  length, get_or, get_elem?, dec_lt, ok, arith,
}
use cse344_assignments.Chefs.{sem_of_ingredients}
use cse344_assignments.Chefs.Bakery.{
  Chef, gone, Bakery, chef_number, Wholesaler, ingredient_number, read, read_end, deliver, post,
  obtain, finish, reading, delivering, posting, awaiting, finishing, last_posting, done,
  system_v_sempost,
}
use cse344_assignments.Chefs.Bakery.Semaphores.{hits, sum}
use cse344_assignments.Chefs.Bakery.Pairs.{pair}
use cse344_assignments.Chefs.Bakery.Weights.{weigh_zero, busy_one, Each}
use cse344_assignments.Chefs.Bakery.Files.{IsNext, at_end, supply, IsFile-IsNext}
use cse344_assignments.Chefs.Bakery.Delivery.{IsEarly, IsPaired, IsLoaded, live_of, due}
use cse344_assignments.Chefs.Bakery.Wholesale.{IsSized}
use cse344_assignments.Chefs.Bakery.Moves.{
  CanStep, IsIdle, sempost_pair, active_steps, wakes, find_active,
}

sum_four :
    (sems : List ℕ)
    → length sems ≡ ingredient_number
    → sum sems ≡ get_or sems 0 0 + get_or sems 1 0 + get_or sems 2 0 + get_or sems 3 0
unfolding sum
sum_four [] e = absurd (omega arith)
sum_four (a ∷ []) e = absurd (omega arith)
sum_four (a ∷ b ∷ []) e = absurd (omega arith)
sum_four (a ∷ b ∷ c ∷ []) e = absurd (omega arith)
sum_four (a ∷ b ∷ c ∷ d ∷ []) e = omega arith
sum_four (a ∷ b ∷ c ∷ d ∷ x ∷ sems) e = absurd (omega arith)

hits_two : (n : ℕ) → hits 0 (pair n) + hits 1 (pair n) + hits 2 (pair n) + hits 3 (pair n) ≡ 2
hits_two n = ground arith

-- Two posts within a pair are that pair.
whole :
    (n k : ℕ) (value : ℕ → ℕ)
    → value 0 + value 1 + value 2 + value 3 ≡ 2
    → ((k : ℕ) → value k ≤ hits k (pair n))
    → k < ingredient_number
    → hits k (pair n) ≤ value k
whole n zero value two le lt = omega (arith, le 0, le 1, le 2, le 3, hits_two n)
whole n (suc zero) value two le lt = omega (arith, le 0, le 1, le 2, le 3, hits_two n)
whole n (suc (suc zero)) value two le lt = omega (arith, le 0, le 1, le 2, le 3, hits_two n)
whole n (suc (suc (suc zero))) value two le lt = omega (arith, le 0, le 1, le 2, le 3, hits_two n)
whole n (suc (suc (suc (suc k)))) value two le lt = absurd (omega arith)

idle-busy_one : (i : ℕ) (c : Chef) → IsIdle i c → busy_one i c ≡ 0
idle-busy_one i c (inl e) = ap (busy_one i) e
idle-busy_one i c (inr e) = ap (busy_one i) e

pub chef_at : (cs : List Chef) (n : ℕ) → n < length cs → (c : Chef) × (get_elem? cs n ≡ some c)
chef_at [] n lt = elim lt [ ]
chef_at (c ∷ cs) zero lt = (c, refl)
chef_at (c ∷ cs) (suc n) lt = chef_at cs n (omega arith)

module _ (s : Bakery) (z : IsSized s) where
  four : length s.sems ≡ ingredient_number
  four = z.four

  -- The post of the index of a chef is made.
  pub posts_pair :
      IsPaired s.sem_index → (ups : List ℕ) × (system_v_sempost s.sems s.sem_index ≡ ok ups)
  posts_pair (n, lt, p) =
      let (ups, e) = sempost_pair s.sems n z.four in (ups, ap (system_v_sempost s.sems) p ∙ e)

  read_steps : IsNext s.fd → s.wholesaler ≡ reading → CanStep s
  read_steps (at_end lt e) w = (_, read_end w e)
  read_steps (supply n mask e (lt, g, ne, at) next len) w =
      let (x, y, shape) = z.two in (_, read w e ne (ap (sem_of_ingredients mask) shape ∙ at x y))

  module _ (v : IsEarly s) where
    -- When every chef waits, the two semaphores of one of them are up.
    offered_steps :
        (n : ℕ)
        → n < chef_number
        → s.sem_index ≡ pair n
        → s.wholesaler ≡ awaiting
        → sum s.sems ≡ 2
        → Each IsIdle s.chefs
        → CanStep s
    offered_steps n lt p w two idle =
        let (c, at) = chef_at s.chefs n (omega (arith, z.few)) in waits c at (idle n c at)
      where
        up : (k : ℕ) → k < ingredient_number → hits k (pair n) ≤ get_or s.sems k 0
        up k in_range =
            whole n k (λ k. get_or s.sems k 0) (sym (sum_four s.sems z.four) ∙ two)
              (λ k.
                omega (arith, v.within k, ap (λ w. due w (hits k s.sem_index)) w, ap (hits k) p))
              in_range

        waits : (c : Chef) → get_elem? s.chefs n ≡ some c → IsIdle n c → CanStep s
        waits c at (inl e) = wakes s z.four n lt (at ∙ ap some e) up
        waits c at (inr e) = absurd (v.places n gone (at ∙ ap some e))

    awaiting_steps : s.wholesaler ≡ awaiting → CanStep s
    awaiting_steps w = elim (find_active s.chefs) [
      | inl (i, c, at, a) ↦ active_steps s z.four i c at a
      | inr idle ↦ elim (dec_lt 0 s.dessert) [
        | yes baked ↦ (_, obtain w baked)
        | no raw ↦ to_wake idle (omega arith)
      ]
    ]
      where
        to_wake : Each IsIdle s.chefs → s.dessert ≡ 0 → CanStep s
        to_wake idle raw =
            let free = weigh_zero busy_one s.chefs (λ i c at. idle-busy_one i c (idle i c at)) in
            let (n, lt, p, g) : IsLoaded awaiting s.store (live_of s) s.sem_index s.fd =
              subst (λ w. IsLoaded w s.store (live_of s) s.sem_index s.fd) w v.loaded in
            offered_steps n lt p w (omega (arith, v.total, free, raw, ap (λ w. due w 2) w)) idle

    early_steps :
        (w : Wholesaler)
        → s.wholesaler ≡ w
        → IsLoaded w s.store (live_of s) s.sem_index s.fd
        → CanStep s
    early_steps reading w l = read_steps (IsFile-IsNext z.lines) w
    early_steps (delivering mask) w l = (_, deliver w)
    early_steps posting w (n, lt, p, g) = let (ups, e) = posts_pair (n, lt, p) in (_, post w e)
    early_steps awaiting w l = awaiting_steps w
    early_steps finishing w l = (_, finish w)
    early_steps last_posting w l = elim l [ ]
    early_steps done w l = elim l [ ]

    pub early-CanStep : CanStep s
    early-CanStep = early_steps s.wholesaler refl v.loaded
