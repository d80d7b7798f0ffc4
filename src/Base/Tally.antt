-- ===== src/Base/Tally.antt =====
-- Sums of a weight over a list, such as the threads that stand at certain places.
use Prim.Native.Nat.{ℕ, zero, suc, ◌+◌, ◌≤◌, ◌<◌}
use mathlib.Core.Path.{◌≡◌, refl, ap, subst}
use mathlib.Core.Logic.{◌≢◌}
use mathlib.Core.Option.{some}
use mathlib.Core.List.{List, [], ◌∷◌}
use native.Mathlib.Decide.{dec_lt}
use native.Mathlib.Omega.{arith}
use cse344_assignments.Base.Lists.{get_elem?, set, replicate}

module _ {ℓ} {A : Type ℓ} where
  -- The weight of a list.
  unfoldable pub tally : (A → ℕ) → List A → ℕ
  tally w [] = 0
  tally w (p ∷ ps) = w p + tally w ps

module _ {ℓ} {A : Type ℓ} where
  pub tally-set :
      (w : A → ℕ) (ps : List A) (i : ℕ) {p : A} (p' : A)
      → get_elem? ps i ≡ some p
      → tally w (set ps i p') + w p ≡ tally w ps + w p'
  unfolding tally
  tally-set w [] i p' e = absurd (ground arith)
  tally-set w (q ∷ ps) zero {p} p' e = ground arith
  tally-set w (q ∷ ps) (suc i) {p} p' e = omega (arith, tally-set w ps i p' e)

  pub tally-replicate : {a : A} (w : A → ℕ) (n : ℕ) → w a ≡ 0 → tally w (replicate n a) ≡ 0
  unfolding tally
  tally-replicate w zero e = refl
  tally-replicate w (suc n) e = omega (arith, e, tally-replicate w n e)

  -- Two weights that count no more than a third, with one item counted apart.
  pub tally-le :
      (a b c : A → ℕ) (ps : List A) (i : ℕ) {p : A}
      → ((q : A) → a q + b q ≤ c q)
      → get_elem? ps i ≡ some p
      → tally a ps + tally b ps + c p ≤ tally c ps + (a p + b p)
  unfolding tally
  tally-le a b c [] i h e = absurd (ground arith)
  tally-le a b c (q ∷ ps) zero {p} h e =
      let le = all ps in
      let same : q ≡ p = ground arith in
      subst (λ p. a q + tally a ps + (b q + tally b ps) + c p ≤ c q + tally c ps + (a p + b p)) same
        (omega (arith, h q))
    where
      all : (ps : List A) → tally a ps + tally b ps ≤ tally c ps
      all [] = omega arith
      all (q ∷ ps) = omega (arith, h q, all ps)
  tally-le a b c (q ∷ ps) (suc i) {p} h e = omega (arith, h q, tally-le a b c ps i h e)

  -- An item, or two, weigh no more than all.
  pub tally_one :
      (w : A → ℕ) (ps : List A) (i : ℕ) {p : A} → get_elem? ps i ≡ some p → w p ≤ tally w ps
  unfolding tally
  tally_one w [] i e = absurd (ground arith)
  tally_one w (q ∷ ps) zero {p} e = let same : q ≡ p = ground arith in ground arith
  tally_one w (q ∷ ps) (suc i) e = omega (arith, tally_one w ps i e)

  pub tally_two :
      (w : A → ℕ) (ps : List A) (i j : ℕ) {p q : A}
      → i ≢ j
      → get_elem? ps i ≡ some p
      → get_elem? ps j ≡ some q
      → w p + w q ≤ tally w ps
  unfolding tally
  tally_two w [] i j ne e f = absurd (ground arith)
  tally_two w (x ∷ ps) zero zero ne e f = absurd (ne refl)
  tally_two w (x ∷ ps) zero (suc j) {p} {q} ne e f =
      let same : x ≡ p = ground arith in ground (arith, tally_one w ps j f)
  tally_two w (x ∷ ps) (suc i) zero {p} {q} ne e f =
      let same : x ≡ q = ground arith in ground (arith, tally_one w ps i e)
  tally_two w (x ∷ ps) (suc i) (suc j) ne e f =
      omega (arith, tally_two w ps i j (λ h. ne (ap suc h)) e f)

  -- A weight that is not 0 belongs to some item.
  pub tally_find :
      (w : A → ℕ) (ps : List A)
      → 0 < tally w ps
      → (i : ℕ) × (p : A) × (get_elem? ps i ≡ some p) × (0 < w p)
  unfolding tally
  tally_find w [] h = absurd (omega arith)
  tally_find w (q ∷ ps) h = elim (dec_lt 0 (w q)) [
    | yes here ↦ (0, q, refl, here)
    | no not_here ↦ let (i, p, e, lt) = tally_find w ps (omega arith) in (suc i, p, e, lt)
  ]

  -- What is counted by `a` is counted by `b` or `c`.
  pub tally_cover :
      (a b c : A → ℕ) (ps : List A)
      → ((q : A) → a q ≤ b q + c q)
      → tally a ps ≤ tally b ps + tally c ps
  unfolding tally
  tally_cover a b c [] h = omega arith
  tally_cover a b c (q ∷ ps) h = omega (arith, h q, tally_cover a b c ps h)
