-- ===== src/Florists/Choice/Nearest.antt =====
-- `find_florist` finds the nearest florist that has the flower, the last one of several.
use cse344_assignments.Base.{
  ℕ, zero, suc, ◌+◌, ◌<◌, ◌≡◌, refl, subst, sym, ◌∙◌, ◌⊎◌, inl, inr, Bool, true, false, List, [],
  ◌∷◌, length, get_elem?, some, Bool-cases, arith,
}
use cse344_assignments.Florists.Choice.{
  Client, Florist, florist_delivers, chebyshev_distance, find_from, find_florist,
}

module _ {F : Type 0} (gap : F → F → F) (gt le : F → F → Bool) (client : Client F) where
  abbrev pub distance : Florist F → F
  distance florist = chebyshev_distance gap gt florist.location client.location

  abbrev pub Delivers : Florist F → Type 0
  Delivers florist = florist_delivers florist client.flower ≡ true

  -- The florist at the index `r` delivers, no other that does is nearer, and no later one is as near.
  abbrev pub IsNearest : List (Florist F) → ℕ → Florist F → Type 0
  IsNearest florists r f =
      (get_elem? florists r ≡ some f)
      × Delivers f
      × ((j : ℕ) (g : Florist F)
          → get_elem? florists j ≡ some g
          → Delivers g
          → (le (distance f) (distance g) ≡ true) × (r < j → le (distance g) (distance f) ≡ false))

  module _ (total : (a b : F) → (le a b ≡ true) ⊎ (le b a ≡ true))
      (trans : (a b c : F) → le a b ≡ true → le b c ≡ true → le a c ≡ true) where
    refute : (a b : F) → le a b ≡ false → le b a ≡ true
    refute a b far = elim (total a b) [ inl h ↦ cc | inr h ↦ h ]

    total_refl : (a : F) → le a a ≡ true
    total_refl a = elim (total a a) [ inl h ↦ h | inr h ↦ h ]

    -- What the loop returns: what it had, or the nearest of the rest.
    Found : ℕ → List (Florist F) → F → ℕ → ℕ → Type 0
    Found i florists min index r =
        ((r ≡ index)
          × ((j : ℕ) (g : Florist F)
              → get_elem? florists j ≡ some g
              → Delivers g
              → le (distance g) min ≡ false))
        ⊎ ((j : ℕ) × (f : Florist F) × (r ≡ i + j)
            × (le (distance f) min ≡ true)
            × IsNearest florists j f)

    -- A florist that does not deliver, or is too far, changes nothing.
    passed :
        (i : ℕ) (f : Florist F) (fs : List (Florist F)) (min : F) (index r : ℕ)
        → (Delivers f → le (distance f) min ≡ false)
        → Found (i + 1) fs min index r
        → Found i (f ∷ fs) min index r
    unfolding Found
    passed i f fs min index r far (inl (e, none)) = inl (e, all)
      where
        all :
            (j : ℕ) (g : Florist F)
            → get_elem? (f ∷ fs) j ≡ some g
            → Delivers g
            → le (distance g) min ≡ false
        all zero g at d =
            let same : f ≡ g = ground arith in
            subst (λ g. Delivers g → le (distance g) min ≡ false) same far d
        all (suc j) g at d = none j g at d
    passed i f fs min index r far (inr (j, h, e, le_min, (at, d, least))) =
        inr (suc j, h, omega arith, le_min, (at, d, all))
      where
        near : Delivers f → le (distance h) (distance f) ≡ true
        near df = trans _ _ _ le_min (refute _ _ (far df))

        all :
            (k : ℕ) (g : Florist F)
            → get_elem? (f ∷ fs) k ≡ some g
            → Delivers g
            → (le (distance h) (distance g) ≡ true)
              × (suc j < k → le (distance g) (distance h) ≡ false)
        all zero g at' d' =
            let same : f ≡ g = ground arith in
            (
              subst (λ g. Delivers g → le (distance h) (distance g) ≡ true) same near d',
              λ lt. absurd (omega arith),
            )
        all (suc k) g at' d' = let (a, b) = least k g at' d' in (a, λ lt. b (omega arith))

    -- A florist that is near enough is what the rest is compared with.
    taken :
        (i : ℕ) (f : Florist F) (fs : List (Florist F)) (min : F) (index r : ℕ)
        → Delivers f
        → le (distance f) min ≡ true
        → Found (i + 1) fs (distance f) i r
        → Found i (f ∷ fs) min index r
    unfolding Found
    taken i f fs min index r df near (inl (e, none)) =
        inr (0, f, omega arith, near, (refl, df, all))
      where
        all :
            (k : ℕ) (g : Florist F)
            → get_elem? (f ∷ fs) k ≡ some g
            → Delivers g
            → (le (distance f) (distance g) ≡ true) × (0 < k → le (distance g) (distance f) ≡ false)
        all zero g at d =
            let same : f ≡ g = ground arith in
            (
              subst (λ g. le (distance f) (distance g) ≡ true) same (total_refl (distance f)),
              λ lt. absurd (omega arith),
            )
        all (suc k) g at d = (refute _ _ (none k g at d), λ lt. none k g at d)
    taken i f fs min index r df near (inr (j, h, e, le_f, (at, d, least))) =
        inr (suc j, h, omega arith, trans _ _ _ le_f near, (at, d, all))
      where
        all :
            (k : ℕ) (g : Florist F)
            → get_elem? (f ∷ fs) k ≡ some g
            → Delivers g
            → (le (distance h) (distance g) ≡ true)
              × (suc j < k → le (distance g) (distance h) ≡ false)
        all zero g at' d' =
            let same : f ≡ g = ground arith in
            (subst (λ g. le (distance h) (distance g) ≡ true) same le_f, λ lt. absurd (omega arith))
        all (suc k) g at' d' = let (a, b) = least k g at' d' in (a, λ lt. b (omega arith))

    find_from-Found :
        (i : ℕ) (florists : List (Florist F)) (min : F) (index : ℕ)
        → Found i florists min index (find_from gap gt le i florists client min index)
    unfolding find_from Found
    find_from-Found i [] min index = inl (refl, λ j g at d. absurd (ground arith))
    find_from-Found i (f ∷ fs) min index = elim (Bool-cases (florist_delivers f client.flower)) [
      | inr without ↦
          rw without (passed i f fs min index _ (λ d. cc) (find_from-Found (i + 1) fs min index))
      | inl has ↦ elim (Bool-cases (le (distance f) min)) [
        | inl near ↦
            rw (has, near)
              (taken i f fs min index _ has near (find_from-Found (i + 1) fs (distance f) i))
        | inr far ↦
            rw (has, far)
              (passed i f fs min index _ (λ d. far) (find_from-Found (i + 1) fs min index))
      ]
    ]

    -- When <= on the distances is total and transitive and no distance is above FLT_MAX,
    -- find_florist returns the number of florists if none delivers the flower, and otherwise the
    -- last of the nearest florists that deliver it.
    pub find_florist-IsNearest :
        (flt_max : F) (florists : List (Florist F))
        → ((f : Florist F) → le (distance f) flt_max ≡ true)
        → ((find_florist gap gt le flt_max florists client ≡ length florists)
            × ((j : ℕ) (g : Florist F) → get_elem? florists j ≡ some g → ¬ Delivers g))
          ⊎ ((f : Florist F) × IsNearest florists
                (find_florist gap gt le flt_max florists client)
                f)
    unfolding find_florist Found
    find_florist-IsNearest flt_max florists finite =
        elim (find_from-Found 0 florists flt_max (length florists)) [
          | inl (e, none) ↦ inl (e, λ j g at d. cc (none j g at d, finite g))
          | inr (j, f, e, near, nearest) ↦
              inr (f, subst (λ r. IsNearest florists r f) (sym (e ∙ omega arith)) nearest)
        ]
