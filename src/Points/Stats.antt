-- ===== src/Points/Stats.antt =====
-- The statistics of homework-2/solution/source/program.c: the array of `update_stats`. The type of the
-- floats is a parameter. A slot of the array is `none` until it is written.
use cse344_assignments.Base.{
  ℕ, zero, suc, ◌+◌, ◌-◌, ◌*◌, ◌%◌, ◌^◌, ◌≤◌, ◌<◌, ◌≡◌, refl, sym, ap, ◌∙◌, subst, Bool-cases, inl,
  inr, Option, none, some, List, [], ◌∷◌, ◌++◌, ◌==◌, if◌then◌else◌, length, length-append,
  length-map, replicate, map, Result, ok, ◌>>=◌, store, arith,
}
use mathlib.Core.List.{append_assoc, append-nil, map-append}

pub record Metric {ℓ} (F : Type ℓ) : Type ℓ where
  pub mae : F
  pub mse : F
  pub rmse : F

pub record MetricsStats {ℓ} (F : Type ℓ) : Type ℓ where
  pub metrics : List (Option (Metric F))
  pub capacity : ℕ
  pub idx : ℕ

module _ {ℓ} {F : Type ℓ} where
  -- As `P2` begins.
  unfoldable pub new_stats : MetricsStats F
  new_stats = record { metrics = replicate 10 none; capacity = 10; idx = 0 }

  -- `xrealloc` to `n` entries: what was there is kept.
  unfoldable pub realloc : List (Option (Metric F)) → ℕ → List (Option (Metric F))
  realloc xs zero = []
  realloc [] (suc n) = none ∷ realloc [] n
  realloc (x ∷ xs) (suc n) = x ∷ realloc xs n

  -- The `if` of `update_stats`; `capacity` is an `unsigned int`.
  unfoldable pub grow : MetricsStats F → MetricsStats F
  unfolding realloc
  grow stats =
      let capacity = stats.capacity * 2 % 2 ^ 32 in
      if stats.idx == stats.capacity
      then record stats { capacity = capacity; metrics = realloc stats.metrics capacity }
      else stats

  unfoldable pub update_stats : Metric F → MetricsStats F → Result (MetricsStats F)
  unfolding grow
  update_stats l stats =
      let grown = grow stats in
      store grown.metrics grown.idx (some l) >>= λ metrics.
      ok (record grown { metrics = metrics; idx = (grown.idx + 1) % 2 ^ 32 })

  -- The calls of a run, in order.
  unfoldable pub update_all : List (Metric F) → MetricsStats F → Result (MetricsStats F)
  unfolding update_stats
  update_all [] stats = ok stats
  update_all (l ∷ ls) stats = update_stats l stats >>= λ stats'. update_all ls stats'

  -- The metrics of the lines, and then the slots that are left.
  pub record IsStats (stats : MetricsStats F) (ls : List (Metric F)) : Type ℓ where
    pub left : ℕ
    pub holds : stats.metrics ≡ map some ls ++ replicate left none
    pub size : stats.capacity ≡ length ls + left
    pub count : stats.idx ≡ length ls
    pub positive : 0 < stats.capacity

  realloc-none : (n : ℕ) → realloc [] n ≡ replicate n none
  unfolding realloc
  realloc-none zero = refl
  realloc-none (suc n) = ap (λ t. none ∷ t) (realloc-none n)

  realloc_more :
      (xs : List (Option (Metric F))) (n : ℕ) → realloc xs (length xs + n) ≡ xs ++ replicate n none
  unfolding realloc
  realloc_more [] n = let e : 0 + n ≡ n = omega arith in rw e (realloc-none n)
  realloc_more (x ∷ xs) n =
      let e : suc (length xs) + n ≡ suc (length xs + n) = omega arith in
      rw e (ap (λ t. x ∷ t) (realloc_more xs n))

  -- An array with room, after the possible growth.
  grow-IsStats :
      (stats : MetricsStats F) (ls : List (Metric F))
      → IsStats stats ls
      → length ls < 2 ^ 31
      → (left : ℕ) × ((grow stats).metrics ≡ map some ls ++ none ∷ replicate left none)
        × ((grow stats).capacity ≡ length ls + suc left)
        × ((grow stats).idx ≡ length ls)
  unfolding grow
  grow-IsStats stats ls v lt = elim (Bool-cases (stats.idx == stats.capacity)) [
    | inl full ↦ rw full (more (ground arith))
    | inr room ↦ rw room (by v.left v.holds (omega (arith, v.size)) (ground arith))
  ]
    where
      by :
          (left : ℕ)
          → stats.metrics ≡ map some ls ++ replicate left none
          → stats.capacity ≡ length ls + left
          → ¬ (stats.idx ≡ stats.capacity)
          → (left : ℕ) × (stats.metrics ≡ map some ls ++ none ∷ replicate left none)
            × (stats.capacity ≡ length ls + suc left)
            × (stats.idx ≡ length ls)
      by zero holds size ne = absurd (ne (omega (arith, size, v.count)))
      by (suc left) holds size ne = (left, holds, size, v.count)

      filled : stats.idx ≡ stats.capacity → stats.metrics ≡ map some ls
      filled full =
          let none_left : v.left ≡ 0 = omega (arith, full, v.size, v.count) in
          v.holds ∙ ap (λ n. map some ls ++ replicate n none) none_left ∙ append-nil (map some ls)

      more :
          stats.idx ≡ stats.capacity
          → (left : ℕ) × (realloc stats.metrics (stats.capacity * 2 % 2 ^ 32)
              ≡ map some ls ++ none ∷ replicate left none)
            × (stats.capacity * 2 % 2 ^ 32 ≡ length ls + suc left)
            × (stats.idx ≡ length ls)
      more full =
          let len : length stats.metrics ≡ length ls =
            ap length (filled full) ∙ length-map ls some in
          let twice : stats.capacity * 2 % 2 ^ 32 ≡ length stats.metrics + stats.capacity =
            omega (arith, full, len, v.count, lt) in
          let pos : stats.capacity ≡ suc (stats.capacity - 1) = omega (arith, v.positive) in
          (
            stats.capacity - 1,
            ap (realloc stats.metrics) twice
                ∙ realloc_more stats.metrics stats.capacity
                ∙ ap (λ n. stats.metrics ++ replicate n none) pos
                ∙ ap (λ t. t ++ none ∷ replicate (stats.capacity - 1) none) (filled full),
            omega (arith, twice, len, v.count, full, v.positive),
            v.count,
          )

  store_at :
      (xs ys : List (Option (Metric F))) (y v : Option (Metric F))
      → store (xs ++ y ∷ ys) (length xs) v ≡ ok (xs ++ v ∷ ys)
  store_at [] ys y v = refl
  store_at (x ∷ xs) ys y v = rw (store_at xs ys y v) refl

  update_stats-IsStats :
      (stats : MetricsStats F) (ls : List (Metric F)) (l : Metric F)
      → IsStats stats ls
      → length ls < 2 ^ 31
      → (stats' : MetricsStats F) × (update_stats l stats ≡ ok stats')
        × IsStats stats' (ls ++ l ∷ [])
  unfolding update_stats
  update_stats-IsStats stats ls l v lt =
      let (left, holds, size, count) = grow-IsStats stats ls v lt in
      let at : (grow stats).idx ≡ length (map some ls) = count ∙ sym (length-map ls some) in
      let written : store (grow stats).metrics (grow stats).idx (some l)
          ≡ ok (map some ls ++ some l ∷ replicate left none) =
        ap (λ t. store t (grow stats).idx (some l)) holds
        ∙ ap (λ n. store (map some ls ++ none ∷ replicate left none) n (some l)) at
        ∙ store_at (map some ls) (replicate left none) none (some l) in
      (
        record (grow stats) {
          metrics = map some ls ++ some l ∷ replicate left none;
          idx = ((grow stats).idx + 1) % 2 ^ 32;
        },
        rw written refl,
        record {
          left = left;
          holds = sym (
              ap (λ t. t ++ replicate left none) (map-append some ls (l ∷ []))
              ∙ append_assoc (map some ls) (some l ∷ []) (replicate left none));
          size = omega (arith, size, length-append ls (l ∷ []));
          count = omega (arith, count, length-append ls (l ∷ []), lt);
          positive = omega (arith, size);
        },
      )

  update_all-IsStats :
      (ls done : List (Metric F)) (stats : MetricsStats F)
      → IsStats stats done
      → length done + length ls ≤ 2 ^ 31
      → (stats' : MetricsStats F) × (update_all ls stats ≡ ok stats') × IsStats stats' (done ++ ls)
  unfolding update_all
  update_all-IsStats [] done stats v le =
      (stats, refl, subst (IsStats stats) (sym (append-nil done)) v)
  update_all-IsStats (l ∷ ls) done stats v le =
      let (stats', e, v') = update_stats-IsStats stats done l v (omega arith) in
      let (last, f, w) =
        update_all-IsStats ls (done ++ l ∷ []) stats' v'
          (omega (arith, le, length-append done (l ∷ []))) in
      (last, rw e f, subst (IsStats last) (append_assoc done (l ∷ []) ls) w)

  -- For at most 2^31 lines the calls of update_stats from the array of ten entries on succeed
  -- without an access out of bounds, and leave the metrics of all lines in order, counted by idx,
  -- in an array that has capacity entries.
  pub update_all-new_stats :
      (ls : List (Metric F))
      → length ls ≤ 2 ^ 31
      → (stats : MetricsStats F) × (update_all ls new_stats ≡ ok stats) × IsStats stats ls
  unfolding new_stats
  update_all-new_stats ls le = update_all-IsStats ls [] new_stats begin (omega arith)
    where
      begin : IsStats new_stats []
      begin = record {
        left = 10;
        holds = refl;
        size = omega arith;
        count = refl;
        positive = omega arith;
      }
