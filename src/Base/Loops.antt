-- ===== src/Base/Loops.antt =====
-- Counting loops of C over a state: for (i = from; i < from + rounds; i++) body.
use Prim.Native.Nat.{ℕ, zero, suc, ◌+◌, ◌≤◌, ◌<◌}
use mathlib.Core.Path.{◌≡◌, refl, subst}
use native.Mathlib.Omega.{arith}
use cse344_assignments.Base.Results.{Result, ok, ◌>>=◌}

module _ {ℓ} {S : Type ℓ} where
  unfoldable pub for_loop : ℕ → ℕ → (ℕ → S → Result S) → S → Result S
  for_loop zero i body s = ok s
  for_loop (suc rounds) i body s = body i s >>= for_loop rounds (i + 1) body

  -- A loop whose body succeeds and keeps an invariant succeeds and ends with it.
  pub for_loop_invariant :
      (body : ℕ → S → Result S) (Inv : ℕ → S → Type 0) (rounds i : ℕ) (s : S)
      → ((k : ℕ) (t : S)
          → i ≤ k
          → k < i + rounds
          → Inv k t
          → (t' : S) × (body k t ≡ ok t') × Inv (k + 1) t')
      → Inv i s
      → (t : S) × (for_loop rounds i body s ≡ ok t) × Inv (i + rounds) t
  unfolding for_loop
  for_loop_invariant body Inv zero i s step v = (s, refl, subst (λ n. Inv n s) (omega arith) v)
  for_loop_invariant body Inv (suc rounds) i s step v =
      let (t, e, w) = step i s (omega arith) (omega arith) v in
      let (u, f, x) =
        for_loop_invariant body Inv rounds (i + 1) t
          (λ k t le lt. step k t (omega arith) (omega arith)) w in
      (u, rw e f, subst (λ n. Inv n u) (omega arith) x)
