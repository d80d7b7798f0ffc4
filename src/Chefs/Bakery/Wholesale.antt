-- ===== src/Chefs/Bakery/Wholesale.antt =====
-- The steps of the wholesaler of homework-4/solution/source/program.c before it sets `finished`.
use cse344_assignments.Base.{
  ℕ, ◌+◌, ◌-◌, ◌≤◌, ◌<◌, ◌≡◌, ◌≢◌, sym, ap, ◌∙◌, subst, ◌⊎◌, inl, inr, List, [], ◌∷◌, length, ok,
  ok-injective, arith,
}
use cse344_assignments.Chefs.{sem_of_ingredients, next_supply}
use cse344_assignments.Chefs.Bakery.{
  Wholesaler, reading, delivering, posting, awaiting, finishing, Bakery, chef_number,
  ingredient_number, system_v_sempost,
}
use cse344_assignments.Chefs.Bakery.Semaphores.{hits, get_or-le-sum, Ups, sempost_lem}
use cse344_assignments.Chefs.Bakery.Pairs.{pair, first, second}
use cse344_assignments.Chefs.Bakery.Weights.{held-le-busy}
use cse344_assignments.Chefs.Bakery.Files.{
  IsFile, IsSupplyOf, IsNext, at_end, supply, IsFile-IsNext,
}
use cse344_assignments.Chefs.Bakery.Delivery.{due, IsPaired, IsLoaded, live_of, IsEarly}

-- The sizes, the two numbers of `sem_index`, and what is left of the file.
pub record IsSized (s : Bakery) : Type 0 where
  pub four : length s.sems ≡ ingredient_number
  pub few : length s.chefs ≡ chef_number
  pub two : (x : ℕ) × (y : ℕ) × (s.sem_index ≡ x ∷ y ∷ [])
  pub lines : IsFile s.fd

pair-injective : {p q : ℕ × List ℕ} → ok p ≡ ok q → (p.0 ≡ q.0) × (p.1 ≡ q.1)
pair-injective e = (ap (λ p. p.0) (ok-injective e), ap (λ p. p.1) (ok-injective e))

-- The supply that was read.
pub read-IsSupplyOf :
    (fd rest : List ℕ) (mask : ℕ)
    → IsFile fd
    → next_supply fd ≡ ok (mask, rest)
    → mask ≢ 0
    → (n : ℕ) × IsSupplyOf n mask × IsFile rest × (length fd ≡ length rest + 3)
read-IsSupplyOf fd rest mask f e ne = by (IsFile-IsNext f)
  where
    by : IsNext fd → (n : ℕ) × IsSupplyOf n mask × IsFile rest × (length fd ≡ length rest + 3)
    by (at_end lt g) = absurd (ne (sym (pair-injective (sym g ∙ e)).0))
    by (supply n m g of next len) =
        let (p, q) = pair-injective (sym g ∙ e) in
        (
          n,
          subst (IsSupplyOf n) p of,
          subst IsFile q next,
          subst (λ r. length fd ≡ length r + 3) q len,
        )

pub read_end-lt :
    (fd rest : List ℕ) → IsFile fd → next_supply fd ≡ ok (0, rest) → (length fd < 3) × (rest ≡ [])
read_end-lt fd rest f e = by (IsFile-IsNext f)
  where
    by : IsNext fd → (length fd < 3) × (rest ≡ [])
    by (at_end lt g) = (lt, (pair-injective (sym e ∙ g)).1)
    by (supply n m g of next len) = absurd (of.2 (pair-injective (sym g ∙ e)).0)

module _ (s : Bakery) (v : IsEarly s) (z : IsSized s) where
  not_due : {w : Wholesaler} (k : ℕ) → s.wholesaler ≡ w → due s.wholesaler k ≡ due w k
  not_due k e = ap (λ w. due w k) e

  now : {w : Wholesaler} → s.wholesaler ≡ w → IsLoaded w s.store (live_of s) s.sem_index s.fd
  now e = subst (λ w. IsLoaded w s.store (live_of s) s.sem_index s.fd) e v.loaded

  pub read-IsEarly :
      {mask : ℕ} {fd index : List ℕ}
      → s.wholesaler ≡ reading
      → next_supply s.fd ≡ ok (mask, fd)
      → mask ≢ 0
      → sem_of_ingredients mask s.sem_index ≡ ok index
      → IsEarly (record s { fd = fd; sem_index = index; wholesaler = delivering mask })
  read-IsEarly {mask} {fd} {index} w e ne f =
      let (n, (lt, g, pos, at), rest, len) = read-IsSupplyOf s.fd fd mask z.lines e ne in
      let (x, y, shape) = z.two in
      let found : index ≡ pair n =
        ok-injective (sym f ∙ ap (sem_of_ingredients mask) shape ∙ at x y) in
      record {
        unfinished = v.unfinished;
        places = v.places;
        within = λ k. omega (arith, v.within k, not_due (hits k s.sem_index) w);
        total = omega (arith, v.total, not_due 2 w);
        loaded = (n, lt, found, g);
      }

  pub read_end-IsEarly :
      {fd : List ℕ}
      → s.wholesaler ≡ reading
      → next_supply s.fd ≡ ok (0, fd)
      → IsEarly (record s { fd = fd; wholesaler = finishing })
  read_end-IsEarly {fd} w e = record {
    unfinished = v.unfinished;
    places = v.places;
    within = λ k. omega (arith, v.within k, not_due (hits k s.sem_index) w);
    total = omega (arith, v.total, not_due 2 w);
    loaded = paired (now w);
  }
    where
      paired : IsPaired s.sem_index ⊎ (3 ≤ length s.fd) → IsPaired s.sem_index
      paired (inl p) = p
      paired (inr more) = absurd (omega (arith, more, (read_end-lt s.fd fd z.lines e).0))

  pub deliver-IsEarly :
      {mask : ℕ}
      → s.wholesaler ≡ delivering mask
      → IsEarly (record s { store = mask; wholesaler = posting })
  deliver-IsEarly w = record {
    unfinished = v.unfinished;
    places = v.places;
    within = λ k. omega (arith, v.within k, not_due (hits k s.sem_index) w);
    total = omega (arith, v.total, not_due 2 w);
    loaded = now w;
  }

  pub post-IsEarly :
      {sems : List ℕ}
      → s.wholesaler ≡ posting
      → system_v_sempost s.sems s.sem_index ≡ ok sems
      → IsEarly (record s { sems = sems; wholesaler = awaiting })
  post-IsEarly {sems} w e =
      let (n, lt, p, g) = now w in
      let (ups, len, more) : Ups s.sems (pair n) sems =
        sempost_lem s.sems (first n) (second n)
          (subst (λ l. system_v_sempost s.sems l ≡ ok sems) p e) in
      record {
        unfinished = v.unfinished;
        places = v.places;
        within =
            λ k. omega (arith, v.within k, not_due (hits k s.sem_index) w, ups k, ap (hits k) p);
        total = omega (arith, v.total, not_due 2 w, more);
        loaded = (n, lt, p, λ q. g);
      }

  pub obtain-IsEarly :
      s.wholesaler ≡ awaiting
      → 0 < s.dessert
      → IsEarly (record s { dessert = s.dessert - 1; wholesaler = reading })
  obtain-IsEarly w pos =
      let (n, lt, p, g) = now w in
      let two = not_due 2 w in
      record {
        unfinished = v.unfinished;
        places = v.places;
        within =
            λ k. omega (arith, v.total, two, pos, get_or-le-sum s.sems k, held-le-busy k 0 s.chefs);
        total = omega (arith, v.total, two, pos);
        loaded = inl (n, lt, p);
      }
