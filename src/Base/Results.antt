-- ===== src/Base/Results.antt =====
-- Results of C code: a value, or the way in which the run stops. `xerror`, `assert` and `exit`
-- stop the program on purpose; the other faults are undefined behaviour of C.
use mathlib.Core.Path.{◌≡◌, refl}
use mathlib.Core.Bool.{Bool, true, false}
use mathlib.Core.List.{List, [], ◌∷◌}
use mathlib.Core.Option.{Option, none, some}
use Prim.Native.Nat.{ℕ, zero, suc, ◌<◌, ◌≤◌}
use native.Mathlib.Omega.{arith}
use cse344_assignments.Base.Lists.{length, get_elem?, get_or, set}

pub data Fault : Type 0 where
  exited : Fault
  assertion : Fault
  out_of_bounds : Fault
  uninitialised : Fault
  use_after_free : Fault
  int_overflow : Fault
  division_by_zero : Fault
  out_of_fuel : Fault

pub data Result {ℓ} (A : Type ℓ) : Type ℓ where
  ok : A → Result A
  err : Fault → Result A

-- What a test that must hold leaves.
abbrev pub guard : Bool → Fault → Result (Unit {0})
guard false why = err why
guard true why = ok tt

-- The rest of the run, with the value; a fault ends it.
infixl 5 ◌>>=◌
abbrev pub ◌>>=◌ {ℓ κ} : {A : Type ℓ} {B : Type κ} → Result A → (A → Result B) → Result B
err why >>= rest = err why
ok a >>= rest = rest a

infixl 5 ◌>>◌
abbrev pub ◌>>◌ {ℓ} : {A : Type ℓ} → Result (Unit {0}) → Result A → Result A
err why >> rest = err why
ok done >> rest = rest

-- Inversion of a bind that succeeds.
pub >>=-eq-ok {ℓ κ} :
    {A : Type ℓ} {B : Type κ} (run : Result A) (rest : A → Result B) {b : B}
    → (run >>= rest) ≡ ok b
    → (a : A) × (run ≡ ok a) × (rest a ≡ ok b)
>>=-eq-ok (err why) rest h = cc
>>=-eq-ok (ok a) rest h = (a, refl, h)

pub >>-eq-ok {ℓ} :
    {A : Type ℓ} (run : Result (Unit {0})) (rest : Result A) {b : A}
    → (run >> rest) ≡ ok b
    → (run ≡ ok tt) × (rest ≡ ok b)
>>-eq-ok (err why) rest h = cc
>>-eq-ok (ok done) rest h = (refl, h)

module _ {ℓ} {A : Type ℓ} where
  -- `a[i]` as a value.
  abbrev pub load : List A → ℕ → Result A
  load [] i = err out_of_bounds
  load (x ∷ xs) zero = ok x
  load (x ∷ xs) (suc i) = load xs i

  -- `a[i] = v`.
  abbrev pub store : List A → ℕ → A → Result (List A)
  store [] i v = err out_of_bounds
  store (x ∷ xs) zero v = ok (v ∷ xs)
  store (x ∷ xs) (suc i) v = store xs i v >>= λ ys. ok (x ∷ ys)

  pub store_lem : (xs : List A) (i : ℕ) (v : A) → i < length xs → store xs i v ≡ ok (set xs i v)
  store_lem [] i v h = elim h [ ]
  store_lem (x ∷ xs) zero v h = refl
  store_lem (x ∷ xs) (suc i) v h = rw (store_lem xs i v (omega arith))

  pub store-eq-ok :
      (xs : List A) (i : ℕ) (v : A) {ys : List A}
      → store xs i v ≡ ok ys
      → (i < length xs) × (ys ≡ set xs i v)
  store-eq-ok [] i v h = cc
  store-eq-ok (x ∷ xs) zero v h = (omega arith, ground arith)
  store-eq-ok (x ∷ xs) (suc i) v h =
      let (zs, e, p) = >>=-eq-ok (store xs i v) _ h in
      let (lt, q) = store-eq-ok xs i v e in (omega arith, ground arith)

  pub store-out_of_bounds :
      (xs : List A) (i : ℕ) (v : A) → length xs ≤ i → store xs i v ≡ err out_of_bounds
  store-out_of_bounds [] i v h = refl
  store-out_of_bounds (x ∷ xs) zero v h = absurd (omega arith)
  store-out_of_bounds (x ∷ xs) (suc i) v h = rw (store-out_of_bounds xs i v (omega arith))

  pub load-get_elem? : (xs : List A) (i : ℕ) {x : A} → get_elem? xs i ≡ some x → load xs i ≡ ok x
  load-get_elem? [] i h = cc
  load-get_elem? (y ∷ xs) zero h = ground arith
  load-get_elem? (y ∷ xs) (suc i) h = load-get_elem? xs i h

  pub load-eq-ok : (xs : List A) (i : ℕ) {x : A} → load xs i ≡ ok x → get_elem? xs i ≡ some x
  load-eq-ok [] i h = cc
  load-eq-ok (y ∷ xs) zero h = ground arith
  load-eq-ok (y ∷ xs) (suc i) h = load-eq-ok xs i h

  pub load-get_or :
      (xs : List A) (i : ℕ) (d : A) {x : A}
      → load xs i ≡ ok x
      → (get_or xs i d ≡ x) × (i < length xs)
  load-get_or [] i d h = cc
  load-get_or (y ∷ xs) zero d h = (ground arith, omega arith)
  load-get_or (y ∷ xs) (suc i) d h = let (e, lt) = load-get_or xs i d h in (e, omega arith)

  pub load-out_of_bounds : (xs : List A) (i : ℕ) → length xs ≤ i → load xs i ≡ err out_of_bounds
  load-out_of_bounds [] i h = refl
  load-out_of_bounds (x ∷ xs) zero h = absurd (omega arith)
  load-out_of_bounds (x ∷ xs) (suc i) h = load-out_of_bounds xs i (omega arith)

  pub load_total : (xs : List A) (i : ℕ) → i < length xs → (x : A) × (load xs i ≡ ok x)
  load_total [] i h = elim h [ ]
  load_total (x ∷ xs) zero h = (x, refl)
  load_total (x ∷ xs) (suc i) h = load_total xs i (omega arith)

pub ok-injective {ℓ} : {A : Type ℓ} {a b : A} → ok a ≡ ok b → a ≡ b
ok-injective h = ground arith

-- A read of a slot; what `xmalloc` left there may not be used.
abbrev pub used {ℓ} : {A : Type ℓ} → Option A → Result A
used none = err uninitialised
used (some x) = ok x
