-- ===== src/Florists/Choice.antt =====
-- `find_florist` of homework-5/solution/source/program.c and what it calls: the florist that gets the
-- request of a client. A string is its bytes before the zero byte. The floats are a parameter: their
-- type, `fabs(a - b)`, the tests `>` and `<=`, and `FLT_MAX`.
pub mod Nearest
use cse344_assignments.Base.{
  ℕ, zero, suc, ◌+◌, Bool, true, false, ◌||◌, List, [], ◌∷◌, length, ◌==◌, if◌then◌else◌,
}

abbrev pub name_length : ℕ
name_length = 32

-- `strncmp(a, b, n) == 0`.
unfoldable pub same_name : ℕ → List ℕ → List ℕ → Bool
same_name zero a b = true
same_name (suc n) [] [] = true
same_name (suc n) [] (y ∷ b) = false
same_name (suc n) (x ∷ a) [] = false
same_name (suc n) (x ∷ a) (y ∷ b) = if x == y then same_name n a b else false

-- The loop of `florist_delivers`.
unfoldable pub delivers_any : List (List ℕ) → List ℕ → Bool → Bool
delivers_any [] flower delivers = delivers
delivers_any (own ∷ owns) flower delivers =
    delivers_any owns flower (delivers || same_name name_length own flower)

module _ (F : Type 0) where
  pub record Point : Type 0 where
    pub x : F
    pub y : F

  pub record Client : Type 0 where
    pub location : Point
    pub flower : List ℕ

  -- Without the name and the speed, which only the messages and the time of a delivery use.
  pub record Florist : Type 0 where
    pub location : Point
    pub flower : List (List ℕ)

module _ {F : Type 0} where
  unfoldable pub florist_delivers : Florist F → List ℕ → Bool
  unfolding delivers_any
  florist_delivers florist flower = delivers_any florist.flower flower false

  module _ (gap : F → F → F) (gt : F → F → Bool) where
    unfoldable pub max : F → F → F
    max n1 n2 = if gt n1 n2 then n1 else n2

    unfoldable pub chebyshev_distance : Point F → Point F → F
    unfolding max
    chebyshev_distance p1 p2 = max (gap p1.x p2.x) (gap p1.y p2.y)

  module _ (gap : F → F → F) (gt le : F → F → Bool) where
    -- The loop of `find_florist` over the florists from the index `i` on.
    unfoldable pub find_from : ℕ → List (Florist F) → Client F → F → ℕ → ℕ
    unfolding chebyshev_distance florist_delivers
    find_from i [] client min florist_index = florist_index
    find_from i (florist ∷ florists) client min florist_index =
        let distance = chebyshev_distance gap gt florist.location client.location in
        let nearer = find_from (i + 1) florists client distance i in
        let as_before = find_from (i + 1) florists client min florist_index in
        if florist_delivers florist client.flower
        then (if le distance min then nearer else as_before)
        else as_before

    unfoldable pub find_florist : F → List (Florist F) → Client F → ℕ
    unfolding find_from
    find_florist flt_max florists client = find_from 0 florists client flt_max (length florists)
