-- ===== src/Base/Windows.antt =====
-- A circular array of `cap` slots: the items that stand in it from an index on, going round.
use Prim.Native.Nat.{ℕ, suc, ◌+◌, ◌-◌, ◌%◌, ◌≤◌, ◌<◌}
use mathlib.Core.Path.{◌≡◌, sym, ap, ◌∙◌}
use mathlib.Core.Logic.{◌≢◌}
use mathlib.Core.List.{List, [], ◌∷◌, ◌++◌}
use mathlib.Core.Option.{Option, some}
use native.Mathlib.Nat.{mod-add-mod, mod-eq_of_lt, mod-eq-sub-mod, mod-lt, add-zero}
use native.Mathlib.Decide.{dec_lt}
use native.Mathlib.Omega.{arith}
use cse344_assignments.Base.Lists.{length, get_elem?, set, get_elem?-set_self, get_elem?-set_ne}

-- An index that has passed the end once.
once_round : (i n : ℕ) → n ≤ i → i < n + n → i % n + n ≡ i
once_round i n past short =
    let back : (i - n) % n ≡ i - n = mod-eq_of_lt (omega arith) in
    let down : i % n ≡ (i - n) % n = mod-eq-sub-mod past in omega arith

-- Fewer than `cap` steps round the array do not lead back.
pub add-mod-ne : (cap h k : ℕ) → h < cap → suc k < cap → (h + suc k) % cap ≢ h
add-mod-ne cap h k inside short = elim (dec_lt (h + suc k) cap) [
  | yes before ↦ let stays : (h + suc k) % cap ≡ h + suc k = mod-eq_of_lt before in omega arith
  | no after ↦ omega (arith, once_round (h + suc k) cap (omega arith) (omega arith))
]

pub add-mod_self : (n cap : ℕ) → (n + cap) % cap ≡ n % cap
add-mod_self n cap =
    mod-eq-sub-mod {n = n + cap} {m = cap} (omega arith) ∙ ap (λ k. k % cap) (omega arith)

-- Going on by one, from the next index or from here.
pub round_step : (h k cap : ℕ) → ((h + 1) % cap + k) % cap ≡ (h + suc k) % cap
round_step h k cap = mod-add-mod (h + 1) cap k ∙ ap (λ n. n % cap) (omega arith)

module _ {ℓ} {A : Type ℓ} (line : List (Option A)) (cap : ℕ) where
  -- The slots from `h` on hold `xs`.
  abbrev pub Window : ℕ → List A → Type ℓ
  Window h [] = Unit
  Window h (x ∷ xs) = (get_elem? line h ≡ some (some x)) × Window ((h + 1) % cap) xs

  pub Window-last :
      (h : ℕ) (xs : List A) (x : A)
      → h < cap
      → Window h (xs ++ x ∷ [])
      → get_elem? line ((h + length xs) % cap) ≡ some (some x)
  Window-last h [] x lt w =
      ap (get_elem? line) (ap (λ n. n % cap) (add-zero h) ∙ mod-eq_of_lt lt) ∙ w.0
  Window-last h (y ∷ xs) x lt w =
      ap (get_elem? line) (sym (round_step h (length xs) cap))
      ∙ Window-last ((h + 1) % cap) xs x (mod-lt (h + 1) (omega arith)) w.1

-- A write just past the window makes it longer by that item.
pub Window-set {ℓ} :
    {A : Type ℓ} (line : List (Option A)) (cap : ℕ) (xs : List A) (x : A) (h i : ℕ)
    → cap ≤ length line
    → h < cap
    → length xs < cap
    → i ≡ (h + length xs) % cap
    → Window line cap h xs
    → Window (set line i (some x)) cap h (xs ++ x ∷ [])
Window-set line cap [] x h i alloc lt room e w =
    let here : i ≡ h = e ∙ ap (λ n. n % cap) (add-zero h) ∙ mod-eq_of_lt lt in
    (rw here (get_elem?-set_self line h (some x) (omega arith)), tt)
Window-set line cap (y ∷ xs) x h i alloc lt room e w = (
  get_elem?-set_ne line (some x) (rw e (add-mod-ne cap h (length xs) lt room)) ∙ w.0,
  Window-set line cap xs x ((h + 1) % cap) i alloc (mod-lt (h + 1) (omega arith)) (omega arith)
      (e ∙ sym (round_step h (length xs) cap)) w.1,
)

-- Only the slots below `cap` matter.
pub Window-agree {ℓ} :
    {A : Type ℓ} (line line' : List (Option A)) (cap h : ℕ) (xs : List A)
    → ((i : ℕ) → i < cap → get_elem? line' i ≡ get_elem? line i)
    → h < cap
    → Window line cap h xs
    → Window line' cap h xs
Window-agree line line' cap h [] same lt w = tt
Window-agree line line' cap h (x ∷ xs) same lt w = (
  same h lt ∙ w.0,
  Window-agree line line' cap ((h + 1) % cap) xs same (mod-lt (h + 1) (omega arith)) w.1,
)
