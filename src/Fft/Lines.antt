-- ===== src/Fft/Lines.antt =====
-- A line that `str2complex` writes is read back by `buf2complex`.
use cse344_assignments.Base.{
  ℕ, zero, suc, ◌+◌, ◌-◌, ◌*◌, ◌/◌, ◌≤◌, ◌<◌, ◌≡◌, refl, sym, ap, ◌∙◌, true, false, List, [], ◌∷◌,
  ◌++◌, ◌==◌, ltb, length, length-append, replicate, out_of_bounds, ok, err, All, Bool-cases, inl,
  inr, subst, length-replicate, Any, ◌⊎◌, arith,
}
use mathlib.Core.List.{append_assoc, append-nil}
use cse344_assignments.Libc.{ℤ, pos, negsuc, decimal_before, decimal, decimal_int}
use cse344_assignments.Libc.Numbers.{FitsInt, str2int-decimal_int}
use cse344_assignments.Libc.Digits.{length-decimal_three}
use cse344_assignments.Fft.{
  line_size, number_limit, char_of, number_text, put_text, write_numbers, end_line, str2complex,
  read_complex, read_numbers, buf2complex,
}

-- A number below 100 has at most two digits.
length-decimal_below : (n : ℕ) → n < 100 → length (decimal n) ≤ 2
unfolding decimal decimal_before
length-decimal_below zero lt = omega arith
length-decimal_below (suc n) lt =
    let last : (suc n / 10 / 10 == 0) ≡ true = ground arith in ground (arith, last)

-- The numbers of the characters.
unfoldable pub numbers : ℕ → List ℕ → List (ℤ × ℤ)
numbers zero bytes = []
numbers (suc rounds) [] = []
numbers (suc rounds) (a ∷ []) = []
numbers (suc rounds) (a ∷ b ∷ bytes) = (char_of a, char_of b) ∷ numbers rounds bytes

-- Their texts, before `rest`.
unfoldable pub texts : List (ℤ × ℤ) → List ℕ → List ℕ
texts [] rest = rest
texts ((x, y) ∷ nums) rest = number_text x y ++ texts nums rest

read_complex-number_text :
    (x y : ℤ) (rest : List ℕ)
    → FitsInt x
    → FitsInt y
    → read_complex (number_text x y ++ rest) ≡ ok ((x, y), rest)
unfolding read_complex number_text
read_complex-number_text x y rest hx hy =
    let after_y = b',' ∷ rest in
    let after_x = b'+' ∷ (b'i' ∷ (decimal_int y ++ after_y)) in
    let text : number_text x y ++ rest ≡ decimal_int x ++ after_x =
      append_assoc (decimal_int x) (b'+' ∷ (b'i' ∷ (decimal_int y ++ (b',' ∷ [])))) rest
      ∙ ap (λ t. decimal_int x ++ (b'+' ∷ (b'i' ∷ t)))
          (append_assoc (decimal_int y) (b',' ∷ []) rest) in
    ap read_complex text
    ∙ rw (str2int-decimal_int x after_x hx refl, str2int-decimal_int y after_y hy refl) refl

pub read_numbers-texts :
    (nums : List (ℤ × ℤ)) (rest : List ℕ)
    → All (λ z. FitsInt z.0 × FitsInt z.1) nums
    → read_numbers (length nums) (texts nums rest) ≡ ok nums
unfolding read_numbers texts
read_numbers-texts [] rest h = refl
read_numbers-texts ((x, y) ∷ nums) rest h =
    rw
      (read_complex-number_text x y (texts nums rest) h.0.0 h.0.1, read_numbers-texts nums rest h.1)
      refl

length-number_text_below : (a b : ℕ) → a < 100 → b < 100 → length (number_text (pos a) (pos b)) ≤ 7
unfolding number_text decimal_int
length-number_text_below a b ha hb = omega (
  arith,
  length-append {0} (decimal a) (b'+' ∷ (b'i' ∷ (decimal b ++ (b',' ∷ [])))),
  length-append {0} (decimal b) (b',' ∷ []),
  length-decimal_below a ha,
  length-decimal_below b hb,
)

put_text_lem :
    (out tmp : List ℕ)
    → length tmp ≤ 8
    → length out + length tmp < line_size
    → put_text line_size out tmp ≡ ok (out ++ tmp)
unfolding put_text
put_text_lem out tmp short room =
    let fits : ltb (length tmp) 9 ≡ true = ground arith in
    let lt : length (out ++ tmp) < line_size = omega (arith, length-append {0} out tmp) in
    let inside : ltb (length (out ++ tmp)) line_size ≡ true = ground arith in rw (fits, inside) refl

-- The line of characters below 100, with its length.
write_numbers_lem :
    (rounds : ℕ) (bytes out : List ℕ)
    → length bytes ≡ rounds * 2
    → All (λ b. b < 100) bytes
    → length out + rounds * 7 < line_size
    → (write_numbers rounds bytes out ≡ ok (out ++ texts (numbers rounds bytes) []))
      × (length (out ++ texts (numbers rounds bytes) []) ≤ length out + rounds * 7)
      × (length (numbers rounds bytes) ≡ rounds)
      × All (λ z. FitsInt z.0 × FitsInt z.1) (numbers rounds bytes)
unfolding write_numbers texts numbers
write_numbers_lem zero bytes out size h room =
    (ap ok (sym (append-nil out)), omega (arith, length-append {0} out []), refl, tt)
write_numbers_lem (suc rounds) [] out size h room = absurd (omega arith)
write_numbers_lem (suc rounds) (a ∷ []) out size h room = absurd (omega arith)
write_numbers_lem (suc rounds) (a ∷ b ∷ bytes) out size (ha, (hb, h)) room =
    let ca : char_of a ≡ pos a = ground arith in
    let cb : char_of b ≡ pos b = ground arith in
    let tmp = number_text (pos a) (pos b) in
    let short = length-number_text_below a b ha hb in
    let put = put_text_lem out tmp (omega arith) (omega arith) in
    let (done, le, len, fits) =
      write_numbers_lem rounds bytes (out ++ tmp) (omega arith) h
        (omega (arith, length-append {0} out tmp)) in
    let same = append_assoc out tmp (texts (numbers rounds bytes) []) in
    (
      rw (ca, cb, put) (done ∙ ap ok same),
      rw (ca, cb)
          (subst (λ t. length t ≤ length out + suc rounds * 7) same
            (omega (arith, length-append {0} out tmp))),
      ap suc len,
      (rw (ca, cb) (omega arith, omega arith), fits),
    )

texts-append :
    (nums : List (ℤ × ℤ)) (rest more : List ℕ) → texts nums rest ++ more ≡ texts nums (rest ++ more)
unfolding texts
texts-append [] rest more = refl
texts-append ((x, y) ∷ nums) rest more =
    append_assoc (number_text x y) (texts nums rest) more
    ∙ ap (λ t. number_text x y ++ t) (texts-append nums rest more)

-- For 32 characters below 100 str2complex returns a line of 144 bytes, from which buf2complex
-- reads the 16 numbers whose parts are the characters in order.
pub buf2complex-str2complex :
    (in_buf : List ℕ)
    → length in_buf ≡ 32
    → All (λ b. b < 100) in_buf
    → (line : List ℕ) × (str2complex in_buf ≡ ok line)
      × (length line ≡ line_size)
      × (buf2complex line ≡ ok (numbers number_limit in_buf))
unfolding str2complex buf2complex end_line
buf2complex-str2complex in_buf size h =
    let (done, le, len, fits) =
      write_numbers_lem number_limit in_buf [] (omega arith) h (omega arith) in
    let nums = numbers number_limit in_buf in
    let out = texts nums [] in
    let filled = replicate (line_size - length out - 1) b' ' in
    let rest = filled ++ (10 ∷ []) in
    (
      out ++ rest,
      rw done refl,
      omega (
        arith,
        length-append {0} out rest,
        length-append {0} filled (10 ∷ []),
        length-replicate {0} {A = ℕ} (line_size - length out - 1) b' ',
        le,
      ),
      ap (read_numbers number_limit) (texts-append nums [] rest)
          ∙ ap (λ n. read_numbers n (texts nums rest)) (sym len)
          ∙ read_numbers-texts nums rest fits,
    )

-- A pair of numbers of three digits each.
abbrev pub Wide : ℤ × ℤ → Type 0
Wide (pos a, pos b) = (100 ≤ a) × (100 ≤ b)
Wide (pos a, negsuc b) = ⊥
Wide (negsuc a, y) = ⊥

put_text_cases :
    (out tmp : List ℕ)
    → (put_text line_size out tmp ≡ err out_of_bounds)
      ⊎ (put_text line_size out tmp ≡ ok (out ++ tmp))
unfolding put_text
put_text_cases out tmp = elim (Bool-cases (ltb (length tmp) 9)) [
  | inr long ↦ inl (rw long refl)
  | inl short ↦ elim (Bool-cases (ltb (length (out ++ tmp)) line_size)) [
    | inr full ↦ inl (rw (short, full) refl)
    | inl fits ↦ inr (rw (short, fits) refl)
  ]
]

put_text-Wide :
    (out : List ℕ) (x y : ℤ)
    → Wide (x, y)
    → put_text line_size out (number_text x y) ≡ err out_of_bounds
unfolding put_text number_text decimal_int
put_text-Wide out (pos a) (pos b) (ha, hb) =
    let size : 9 ≤ length (decimal a ++ (b'+' ∷ (b'i' ∷ (decimal b ++ (b',' ∷ []))))) = omega (
      arith,
      length-append {0} (decimal a) (b'+' ∷ (b'i' ∷ (decimal b ++ (b',' ∷ [])))),
      length-append {0} (decimal b) (b',' ∷ []),
      length-decimal_three a ha,
      length-decimal_three b hb,
    ) in
    let long : ltb (length (decimal a ++ (b'+' ∷ (b'i' ∷ (decimal b ++ (b',' ∷ [])))))) 9 ≡ false =
      ground arith in
    rw long refl
put_text-Wide out (pos a) (negsuc b) h = elim h [ ]
put_text-Wide out (negsuc a) y h = elim h [ ]

write_numbers-Wide :
    (rounds : ℕ) (bytes out : List ℕ)
    → Any Wide (numbers rounds bytes)
    → write_numbers rounds bytes out ≡ err out_of_bounds
unfolding write_numbers numbers
write_numbers-Wide zero bytes out h = elim h [ ]
write_numbers-Wide (suc rounds) [] out h = elim h [ ]
write_numbers-Wide (suc rounds) (a ∷ []) out h = elim h [ ]
write_numbers-Wide (suc rounds) (a ∷ b ∷ bytes) out (inl wide) =
    rw (put_text-Wide out (char_of a) (char_of b) wide) refl
write_numbers-Wide (suc rounds) (a ∷ b ∷ bytes) out (inr h) =
    elim (put_text_cases out (number_text (char_of a) (char_of b))) [
      | inl over ↦ rw over refl
      | inr done ↦
          rw done (write_numbers-Wide rounds bytes (out ++ number_text (char_of a) (char_of b)) h)
    ]

-- If one of the 16 pairs of characters has both from 100 on, str2complex writes out of bounds.
pub str2complex_overrun :
    (in_buf : List ℕ)
    → Any Wide (numbers number_limit in_buf)
    → str2complex in_buf ≡ err out_of_bounds
unfolding str2complex
str2complex_overrun in_buf h = rw (write_numbers-Wide number_limit in_buf [] h) refl
