-- ===== src/Base/Predicates.antt =====
-- Predicates on the elements of a list, by recursion, so that the tactics read them.
use Prim.Native.Nat.{ℕ, zero, suc}
use mathlib.Core.Option.{none, some}
use cse344_assignments.Base.Lists.{get_elem?, set, replicate}
use mathlib.Core.Path.{◌≡◌, refl, subst}
use mathlib.Core.Logic.{◌⊎◌, inl, inr}
use mathlib.Core.List.{List, [], ◌∷◌, ◌++◌}

module _ {ℓ} {A : Type ℓ} (P : A → Type 0) where
  abbrev pub All : List A → Type 0
  All [] = Unit
  All (x ∷ xs) = P x × All xs

  abbrev pub Any : List A → Type 0
  Any [] = ⊥
  Any (x ∷ xs) = P x ⊎ Any xs

module _ {ℓ} {A : Type ℓ} (P : A → Type 0) where
  pub All-append : (xs ys : List A) → All P xs → All P ys → All P (xs ++ ys)
  All-append [] ys h k = k
  All-append (x ∷ xs) ys h k = (h.0, All-append xs ys h.1 k)

  pub All-append_right : (xs ys : List A) → All P (xs ++ ys) → All P ys
  All-append_right [] ys h = h
  All-append_right (x ∷ xs) ys h = All-append_right xs ys h.1

  pub Any-append_left : (xs ys : List A) → Any P xs → Any P (xs ++ ys)
  Any-append_left [] ys h = elim h [ ]
  Any-append_left (x ∷ xs) ys (inl p) = inl p
  Any-append_left (x ∷ xs) ys (inr h) = inr (Any-append_left xs ys h)

  pub Any-append_right : (xs ys : List A) → Any P ys → Any P (xs ++ ys)
  Any-append_right [] ys h = h
  Any-append_right (x ∷ xs) ys h = inr (Any-append_right xs ys h)

  pub All-Any {κ} :
      {B : Type κ} (xs : List A)
      → All P xs
      → (Q : A → Type 0) (f : (x : A) → P x → Q x → B) → Any Q xs
      → B
  All-Any [] h Q f a = elim a [ ]
  All-Any (x ∷ xs) h Q f (inl q) = f x h.0 q
  All-Any (x ∷ xs) h Q f (inr a) = All-Any xs h.1 Q f a

pub All-map {ℓ} :
    {A : Type ℓ} (P Q : A → Type 0) → ((x : A) → P x → Q x) → (xs : List A) → All P xs → All Q xs
All-map P Q f [] h = h
All-map P Q f (x ∷ xs) h = (f x h.0, All-map P Q f xs h.1)

pub Any-map {ℓ} :
    {A : Type ℓ} (P Q : A → Type 0) → ((x : A) → P x → Q x) → (xs : List A) → Any P xs → Any Q xs
Any-map P Q f [] h = elim h [ ]
Any-map P Q f (x ∷ xs) (inl p) = inl (f x p)
Any-map P Q f (x ∷ xs) (inr h) = inr (Any-map P Q f xs h)

-- What holds of each member holds of all.
pub All-members : (P : ℕ → Type 0) (xs : List ℕ) → ((x : ℕ) → Any (λ y. y ≡ x) xs → P x) → All P xs
All-members P [] f = tt
All-members P (x ∷ xs) f = (f x (inl refl), All-members P xs (λ y m. f y (inr m)))

module _ {ℓ} {A : Type ℓ} (P : A → Type 0) where
  pub All-set : (xs : List A) (i : ℕ) (x : A) → All P xs → P x → All P (set xs i x)
  All-set [] i x h p = h
  All-set (y ∷ xs) zero x h p = (p, h.1)
  All-set (y ∷ xs) (suc i) x h p = (h.0, All-set xs i x h.1 p)

  pub All-at : (xs : List A) (i : ℕ) {x : A} → All P xs → get_elem? xs i ≡ some x → P x
  All-at [] i h at = absurd (none-ne-some at)
    where
      none-ne-some : {x : A} → ¬ (none ≡ some x)
      none-ne-some e = cc
  All-at (y ∷ xs) zero h at = subst P (some-injective at) h.0
    where
      some-injective : {x y : A} → some x ≡ some y → x ≡ y
      some-injective e = cc
  All-at (y ∷ xs) (suc i) h at = All-at xs i h.1 at

  pub All-replicate : (n : ℕ) (x : A) → P x → All P (replicate n x)
  All-replicate zero x p = tt
  All-replicate (suc n) x p = (p, All-replicate n x p)
