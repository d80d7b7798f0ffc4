-- ===== src/Florists/Flowers/Names.antt =====
-- The names that `read_single_florist` of homework-5/solution/source/program.c finds.
use cse344_assignments.Base.{
  ℕ, zero, suc, ◌+◌, ◌≤◌, ◌<◌, ◌≡◌, refl, ap, ◌∙◌, false, List, [], ◌∷◌, ◌++◌, take, All, length,
  length-append, out_of_bounds, ok, err, ◌>>=◌, arith,
}
use mathlib.Core.List.{append_assoc}
use cse344_assignments.Florists.Choice.{name_length}
use cse344_assignments.Florists.Flowers.{
  comma, is_delimiter, count_char, frequency, skip_delimiters, token, after_token, read_flowers,
  flowers_of, IsName, joined,
}

no_comma : (name : List ℕ) → All (λ c. is_delimiter c ≡ false) name → count_char name comma ≡ 0
no_comma [] h = refl
no_comma (c ∷ name) h = ground (arith, h.0, no_comma name h.1)

count_char-append :
    (xs ys : List ℕ) (c : ℕ) → count_char (xs ++ ys) c ≡ count_char xs c + count_char ys c
count_char-append [] ys c = omega arith
count_char-append (x ∷ xs) ys c = omega (arith, count_char-append xs ys c)

count_char-joined :
    (name : List ℕ) (names : List (List ℕ))
    → IsName name
    → All IsName names
    → count_char (joined name names) comma ≡ length names
count_char-joined name [] h k = no_comma name h.2
count_char-joined name (next ∷ names) h k = omega (
  arith,
  count_char-append name (comma ∷ (b' ' ∷ joined next names)) comma,
  no_comma name h.2,
  count_char-joined next names k.0 k.1,
)

frequency_lem :
    (text : List ℕ) (c : ℕ) → 0 < length text → frequency text c ≡ ok (count_char text c)
unfolding frequency
frequency_lem [] c lt = absurd (omega arith)
frequency_lem (x ∷ text) c lt = refl

take_all : (n : ℕ) (xs : List ℕ) → length xs ≤ n → take n xs ≡ xs
take_all zero [] le = refl
take_all (suc n) [] le = refl
take_all zero (x ∷ xs) le = absurd (omega arith)
take_all (suc n) (x ∷ xs) le = ap (λ t. x ∷ t) (take_all n xs (omega arith))

token_last : (name : List ℕ) → All (λ c. is_delimiter c ≡ false) name → token name ≡ name
unfolding token
token_last [] h = refl
token_last (c ∷ name) h = rw h.0 (ap (λ t. c ∷ t) (token_last name h.1))

token_first :
    (name rest : List ℕ)
    → All (λ c. is_delimiter c ≡ false) name
    → token (name ++ comma ∷ rest) ≡ name
unfolding token
token_first [] rest h = refl
token_first (c ∷ name) rest h = rw h.0 (ap (λ t. c ∷ t) (token_first name rest h.1))

after_token_first :
    (name rest : List ℕ)
    → All (λ c. is_delimiter c ≡ false) name
    → after_token (name ++ comma ∷ rest) ≡ rest
unfolding after_token
after_token_first [] rest h = refl
after_token_first (c ∷ name) rest h = rw h.0 (after_token_first name rest h.1)

skip_first :
    (c : ℕ) (rest : List ℕ) → is_delimiter c ≡ false → skip_delimiters (c ∷ rest) ≡ c ∷ rest
unfolding skip_delimiters
skip_first c rest h = rw h refl

-- A round of the loop at a text that begins with no delimiter.
read_step :
    (n c : ℕ) (rest : List ℕ)
    → is_delimiter c ≡ false
    → read_flowers (suc n) (c ∷ rest) ≡ (
        read_flowers n (after_token (c ∷ rest)) >>= λ names.
        ok (take name_length (token (c ∷ rest)) ∷ names))
unfolding read_flowers
read_step n c rest h = rw (skip_first c rest h, read_flowers) refl

read_flowers-space :
    (n : ℕ) (text : List ℕ) → read_flowers (suc n) (b' ' ∷ text) ≡ read_flowers (suc n) text
unfolding read_flowers skip_delimiters
read_flowers-space n text = refl

-- The round for a name before a comma.
read_name :
    (n : ℕ) (name rest : List ℕ)
    → IsName name
    → read_flowers (suc n) (name ++ comma ∷ rest)
      ≡ (read_flowers n rest >>= λ names. ok (name ∷ names))
read_name n [] rest h = absurd (omega (arith, h.0))
read_name n (c ∷ name) rest h =
    read_step n c (name ++ comma ∷ rest) h.2.0
    ∙ rw
        (
          token_first (c ∷ name) rest h.2,
          after_token_first (c ∷ name) rest h.2,
          take_all name_length (c ∷ name) (omega (arith, h.1)),
        )
        refl

read_flowers-joined :
    (name : List ℕ) (names : List (List ℕ))
    → IsName name
    → All IsName names
    → read_flowers (suc (length names)) (joined name names) ≡ ok (name ∷ names)
read_flowers-joined [] [] h k = absurd (omega (arith, h.0))
read_flowers-joined (c ∷ name) [] h k =
    read_step 0 c name h.2.0
    ∙ rw (token_last (c ∷ name) h.2, take_all name_length (c ∷ name) (omega (arith, h.1)))
        (unfold read_flowers in refl)
read_flowers-joined name (next ∷ names) h k =
    read_name (suc (length names)) name (b' ' ∷ joined next names) h
    ∙ rw
        (
          read_flowers-space (length names) (joined next names),
          read_flowers-joined next names k.0 k.1,
        )
        refl

length-joined :
    (name : List ℕ) (names : List (List ℕ)) → IsName name → 0 < length (joined name names)
length-joined name [] h = h.0
length-joined name (next ∷ names) h =
    omega (arith, h.0, length-append name (comma ∷ (b' ' ∷ joined next names)))

-- For one or more names of at most 31 bytes, none of them empty or with a comma or a space in it,
-- that are joined by a comma and a space, read_single_florist finds as many flowers as there are
-- names and reads back those names in order.
pub flowers_of-joined :
    (name : List ℕ) (names : List (List ℕ))
    → IsName name
    → All IsName names
    → flowers_of (joined name names) ≡ ok (name ∷ names)
unfolding flowers_of
flowers_of-joined name names h k =
    let more : length names + 1 ≡ suc (length names) = omega arith in
    rw
      (
        frequency_lem (joined name names) comma (length-joined name names h),
        count_char-joined name names h k,
        more,
      )
      (read_flowers-joined name names h k)

read_flowers_trailing :
    (name : List ℕ) (names : List (List ℕ))
    → IsName name
    → All IsName names
    → read_flowers (suc (suc (length names))) (joined name names ++ comma ∷ []) ≡ err out_of_bounds
read_flowers_trailing name [] h k =
    read_name 1 name [] h ∙ (unfold read_flowers skip_delimiters in refl)
read_flowers_trailing name (next ∷ names) h k =
    ap (read_flowers (suc (suc (suc (length names)))))
      (append_assoc name (comma ∷ (b' ' ∷ joined next names)) (comma ∷ []))
    ∙ read_name (suc (suc (length names))) name (b' ' ∷ (joined next names ++ comma ∷ [])) h
    ∙ rw
        (
          read_flowers-space (suc (length names)) (joined next names ++ comma ∷ []),
          read_flowers_trailing next names k.0 k.1,
        )
        refl

-- With a comma behind the last name the loop looks for one name more, and strncpy reads through a null
-- pointer.
pub flowers_of_trailing :
    (name : List ℕ) (names : List (List ℕ))
    → IsName name
    → All IsName names
    → flowers_of (joined name names ++ comma ∷ []) ≡ err out_of_bounds
unfolding flowers_of
flowers_of_trailing name names h k =
    let text = joined name names ++ comma ∷ [] in
    let count : count_char text comma + 1 ≡ suc (suc (length names)) = omega (
      arith,
      count_char-append (joined name names) (comma ∷ []) comma,
      count_char-joined name names h k,
    ) in
    rw
      (
        frequency_lem text comma (omega (arith, length-append (joined name names) (comma ∷ []))),
        count,
      )
      (rw (read_flowers_trailing name names h k) refl)
