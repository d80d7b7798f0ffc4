-- ===== src/Server/Input/Reading.antt =====
-- `read_graph` of final-project/solution/source/server.c builds the graph of its file.
use cse344_assignments.Base.{
  ℕ, zero, suc, ◌+◌, ◌≤◌, ◌<◌, ◌≡◌, refl, sym, ap, ◌∙◌, subst, true, false, ◌⊎◌, inl, inr,
  Bool-cases, List, [], ◌∷◌, ◌++◌, ◌==◌, ==-false, All, length, length-append, ok, err,
  out_of_bounds, ◌>>=◌, arith,
}
use mathlib.Core.List.{append_assoc, append-nil}
use cse344_assignments.Libc.{pos, int_max, decimal, is_digit}
use cse344_assignments.Libc.Digits.{decimal-digit}
use cse344_assignments.Server.Input.{
  newline, comment_delimiter, tab_delimiter, strchr, is_comment, larger, numbers, line_V, next_line,
  find_V_from, find_V,
}
use cse344_assignments.Server.Input.Lines.{
  Line, comment, edge_line, content, IsLine, Without-content, content_first, numbers_lem,
  strchr_lem, Without, IsText, Without-text,
}

-- The bytes of a file.
abbrev pub file : List Line → List ℕ
file [] = []
file (l ∷ ls) = content l ++ newline ∷ file ls

-- Whether a file has a line for the edge.
abbrev pub HasLine : ℕ → ℕ → List Line → Type 0
HasLine u w [] = ⊥
HasLine u w (comment text ∷ ls) = HasLine u w ls
HasLine u w (edge_line i j ∷ ls) = ((u ≡ i) × (w ≡ j)) ⊎ HasLine u w ls

-- The largest vertex of a line, or of the lines.
abbrev pub line_max : ℕ → Line → ℕ
line_max V (comment text) = V
line_max V (edge_line i j) = larger (larger V (pos i)) (pos j)

abbrev pub largest : ℕ → List Line → ℕ
largest V [] = V
largest V (l ∷ ls) = largest (line_max V l) ls

pub no_comment : (i : ℕ) (rest : List ℕ) → is_comment (decimal i ++ rest) ≡ false
no_comment i rest =
    let (c, text, e, is) = decimal-digit i in ap (λ t. is_comment (t ++ rest)) e ∙ first c is
  where
    first : (c : ℕ) → is_digit c ≡ true → (c == comment_delimiter) ≡ false
    first c is = ground arith

line_V_lem :
    (V : ℕ) (l : Line) (rest : List ℕ)
    → IsLine l
    → line_V V (content l ++ newline ∷ rest) ≡ ok (line_max V l)
unfolding line_V
line_V_lem V (comment text) rest h = refl
line_V_lem V (edge_line i j) rest h =
    rw
      (
        append_assoc (decimal i) (tab_delimiter ∷ decimal j) (newline ∷ rest),
        no_comment i (tab_delimiter ∷ (decimal j ++ newline ∷ rest)),
        numbers_lem i j (newline ∷ rest) (omega arith) (omega arith) refl,
      )
      refl

find_step :
    (fuel V c : ℕ) (p text : List ℕ)
    → p ≡ c ∷ text
    → find_V_from (suc fuel) V p
      ≡ (line_V V p >>= λ V'. next_line p >>= λ p'. find_V_from fuel V' p')
unfolding find_V_from
find_step fuel V c p text e =
    subst
      (λ p.
        find_V_from (suc fuel) V p
        ≡ (line_V V p >>= λ V'. next_line p >>= λ p'. find_V_from fuel V' p'))
      (sym e) refl

find_V_from_lem :
    (fuel V : ℕ) (ls : List Line)
    → All IsLine ls
    → All IsText ls
    → length (file ls) ≤ fuel
    → find_V_from fuel V (file ls) ≡ ok (largest V ls)
find_V_from_lem zero V [] h k le = unfold find_V_from in refl
find_V_from_lem (suc fuel) V [] h k le = unfold find_V_from in refl
find_V_from_lem zero V (l ∷ ls) h k le =
    absurd (omega (arith, le, length-append (content l) (newline ∷ file ls)))
find_V_from_lem (suc fuel) V (l ∷ ls) h k le =
    let (c, text, e, ne, _) = content_first l in
    find_step fuel V c (file (l ∷ ls)) (text ++ newline ∷ file ls)
      (ap (λ t. t ++ newline ∷ file ls) e)
    ∙ rw
        (
          line_V_lem V l (file ls) h.0,
          strchr_lem newline (content l) (file ls) (Without-content l h.0) (Without-text l k.0),
        )
        (find_V_from_lem fuel (line_max V l) ls h.1 k.1
          (omega (arith, le, length-append (content l) (newline ∷ file ls))))

-- Both vertices of a line are below `V`.
abbrev pub InRange : ℕ → Line → Type 0
InRange V (comment text) = Unit
InRange V (edge_line i j) = (i < V) × (j < V)

pub largest_bounds :
    (V : ℕ) (ls : List Line)
    → All IsLine ls
    → V < int_max
    → (V ≤ largest V ls) × (largest V ls < int_max) × All (InRange (largest V ls + 1)) ls
largest_bounds V [] h lt = (omega arith, lt, tt)
largest_bounds V (comment text ∷ ls) h lt =
    let (le, small, all) = largest_bounds V ls h.1 lt in (le, small, (tt, all))
largest_bounds V (edge_line i j ∷ ls) h lt =
    let m = larger (larger V (pos i)) (pos j) in
    let (a, b, c, d) = bounds i j h.0 in
    let (le, small, all) = largest_bounds (larger (larger V (pos i)) (pos j)) ls h.1 d in
    (omega (arith, a, le), small, ((omega (arith, b, le), omega (arith, c, le)), all))
  where
    bounds :
        (i j : ℕ)
        → (i < int_max) × (j < int_max)
        → (V ≤ larger (larger V (pos i)) (pos j))
          × (i ≤ larger (larger V (pos i)) (pos j))
          × (j ≤ larger (larger V (pos i)) (pos j))
          × (larger (larger V (pos i)) (pos j) < int_max)
    bounds i j h = ground arith

pub find_V_lem :
    (ls : List Line) → All IsLine ls → All IsText ls → find_V (file ls) ≡ ok (largest 0 ls + 1)
unfolding find_V
find_V_lem ls h k =
    let (le, small, all) = largest_bounds 0 ls h (omega arith) in
    rw
      (
        find_V_from_lem (length (file ls)) 0 ls h k (omega arith),
        ==-false (largest 0 ls) int_max (λ e. omega arith),
      )
      refl

-- A line that no newline ends.
strchr_none : (c : ℕ) (xs : List ℕ) → Without c xs → strchr xs c ≡ err out_of_bounds
unfolding strchr
strchr_none c [] h = refl
strchr_none c (x ∷ xs) h = rw (==-false x c h.0) (elim (Bool-cases (x == 0)) [
  | inl zero_byte ↦ rw zero_byte refl
  | inr more ↦ rw more (strchr_none c xs h.1)
])

-- A zero byte of a line hides its newline.
strchr-cases :
    (c : ℕ) (xs rest : List ℕ)
    → Without c xs
    → (strchr (xs ++ c ∷ rest) c ≡ ok (c ∷ rest)) ⊎ (strchr (xs ++ c ∷ rest) c ≡ err out_of_bounds)
unfolding strchr
strchr-cases c [] rest h = inl (ground arith)
strchr-cases c (x ∷ xs) rest h = rw (==-false x c h.0) (elim (Bool-cases (x == 0)) [
  | inl zero_byte ↦ rw zero_byte (inr refl)
  | inr more ↦ rw more (strchr-cases c xs rest h.1)
])

line_V_last : (V : ℕ) (l : Line) → IsLine l → line_V V (content l) ≡ ok (line_max V l)
unfolding line_V
line_V_last V (comment text) h = refl
line_V_last V (edge_line i j) h =
    let read : numbers (decimal i ++ tab_delimiter ∷ decimal j) ≡ ok (pos i, pos j) =
      ap (λ t. numbers (decimal i ++ tab_delimiter ∷ t)) (sym (append-nil (decimal j)))
      ∙ numbers_lem i j [] (omega arith) (omega arith) refl in
    rw (no_comment i (tab_delimiter ∷ decimal j), read) refl

find_V_from_unended :
    (fuel V : ℕ) (ls : List Line) (l : Line)
    → All IsLine ls
    → IsLine l
    → length (file ls ++ content l) ≤ fuel
    → find_V_from fuel V (file ls ++ content l) ≡ err out_of_bounds
find_V_from_unended zero V [] l h k le =
    let (c, text, e, ne, _) = content_first l in absurd (omega (arith, le, ap length e))
find_V_from_unended (suc fuel) V [] l h k le =
    let (c, text, e, ne, _) = content_first l in
    find_step fuel V c (content l) text e
    ∙ rw (line_V_last V l k, strchr_none newline (content l) (Without-content l k)) refl
find_V_from_unended zero V (m ∷ ls) l h k le = absurd (
    omega (
      arith,
      le,
      length-append (file (m ∷ ls)) (content l),
      length-append (content m) (newline ∷ file ls),
    ))
find_V_from_unended (suc fuel) V (m ∷ ls) l h k le =
    let (c, text, e, ne, _) = content_first m in
    let rest = file ls ++ content l in
    let shape : file (m ∷ ls) ++ content l ≡ content m ++ newline ∷ (file ls ++ content l) =
      append_assoc (content m) (newline ∷ file ls) (content l) in
    ap (find_V_from (suc fuel) V) shape
    ∙ find_step fuel V c (content m ++ newline ∷ rest) (text ++ newline ∷ rest)
        (ap (λ t. t ++ newline ∷ rest) e)
    ∙ elim (strchr-cases newline (content m) rest (Without-content m h.0)) [
      | inl found ↦
          rw (line_V_lem V m rest h.0, found)
            (find_V_from_unended fuel (line_max V m) ls l h.1 k
              (omega (arith, le, ap length shape, length-append (content m) (newline ∷ rest))))
      | inr hidden ↦ rw (line_V_lem V m rest h.0, hidden) refl
    ]

-- For such a file whose last line no newline ends, find_V reads through a null pointer.
pub find_V_unended :
    (ls : List Line) (l : Line)
    → All IsLine ls
    → IsLine l
    → find_V (file ls ++ content l) ≡ err out_of_bounds
unfolding find_V
find_V_unended ls l h k =
    rw (find_V_from_unended (length (file ls ++ content l)) 0 ls l h k (omega arith)) refl
