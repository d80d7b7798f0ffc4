-- ===== src/Arguments/Meals/Ranges.antt =====
-- The ranges that `parse_args` of midterm-project/solution/source/utils.c leaves.
use cse344_assignments.Base.{
  ℕ, ◌+◌, ◌*◌, ◌<◌, ◌≡◌, refl, sym, ap, ap₂, ◌∙◌, true, List, ◌==◌, ltb, if◌then◌else◌, length,
  guard, out_of_bounds, ok, >>=-eq-ok, arith, ok-injective, >>-eq-ok, subst,
}
use cse344_assignments.Libc.{ℤ, pos, negsuc, lt_int, add_int, mul_int, sum_of, product_of}
use cse344_assignments.Arguments.{
  check_arg, check_range, number_arg, getopts, getopts_invariant, AtLeast, value,
  check_range-AtLeast, check_arg-given, as_int-eq-ok, if-eq-ok, read-eq-ok,
}
use cse344_assignments.Arguments.Meals.{
  Args, Parsed, nothing_parsed, cooks_option, undergraduates_option, graduates_option,
  tables_option, counter_option, rounds_option, path_option, option, check_args, parse_args,
}

-- What has been checked of the options that were given.
pub record Checked (p : Parsed) : Type 0 where
  pub cooks : p.n ≡ true → AtLeast 3 p.args.cooks
  pub graduates : p.g ≡ true → AtLeast 1 p.args.graduates
  pub tables : p.t ≡ true → AtLeast 2 p.args.tables
  pub counter : p.s ≡ true → AtLeast 4 p.args.counter_size
  pub rounds : p.l ≡ true → AtLeast 3 p.args.rounds

cooks_option-Checked : (p q : Parsed) (num : ℤ) → Checked p → cooks_option p num ≡ ok q → Checked q
cooks_option-Checked p q num v e =
    let (in_range, same) = >>-eq-ok (check_range num (pos 3)) _ e in
    let range = check_range-AtLeast num 3 in_range in
    subst Checked (ok-injective same) (record {
      cooks = λ e. range;
      graduates = v.graduates;
      tables = v.tables;
      counter = v.counter;
      rounds = v.rounds;
    })

graduates_option-Checked :
    (p q : Parsed) (num : ℤ) → Checked p → graduates_option p num ≡ ok q → Checked q
graduates_option-Checked p q num v e =
    let (in_range, same) = >>-eq-ok (check_range num (pos 1)) _ e in
    let range = check_range-AtLeast num 1 in_range in
    subst Checked (ok-injective same) (record {
      cooks = v.cooks;
      graduates = λ e. range;
      tables = v.tables;
      counter = v.counter;
      rounds = v.rounds;
    })

tables_option-Checked :
    (p q : Parsed) (num : ℤ) → Checked p → tables_option p num ≡ ok q → Checked q
tables_option-Checked p q num v e =
    let (in_range, same) = >>-eq-ok (check_range num (pos 2)) _ e in
    let range = check_range-AtLeast num 2 in_range in
    subst Checked (ok-injective same) (record {
      cooks = v.cooks;
      graduates = v.graduates;
      tables = λ e. range;
      counter = v.counter;
      rounds = v.rounds;
    })

counter_option-Checked :
    (p q : Parsed) (num : ℤ) → Checked p → counter_option p num ≡ ok q → Checked q
counter_option-Checked p q num v e =
    let (in_range, same) = >>-eq-ok (check_range num (pos 4)) _ e in
    let range = check_range-AtLeast num 4 in_range in
    subst Checked (ok-injective same) (record {
      cooks = v.cooks;
      graduates = v.graduates;
      tables = v.tables;
      counter = λ e. range;
      rounds = v.rounds;
    })

rounds_option-Checked :
    (p q : Parsed) (num : ℤ) → Checked p → rounds_option p num ≡ ok q → Checked q
rounds_option-Checked p q num v e =
    let (in_range, same) = >>-eq-ok (check_range num (pos 3)) _ e in
    let range = check_range-AtLeast num 3 in_range in
    subst Checked (ok-injective same) (record {
      cooks = v.cooks;
      graduates = v.graduates;
      tables = v.tables;
      counter = v.counter;
      rounds = λ e. range;
    })

undergraduates_option-Checked :
    (p q : Parsed) (num : ℤ) → Checked p → undergraduates_option p num ≡ ok q → Checked q
undergraduates_option-Checked p q num v e = subst Checked (ok-injective e) (record {
  cooks = v.cooks;
  graduates = v.graduates;
  tables = v.tables;
  counter = v.counter;
  rounds = v.rounds;
})

path_option-Checked :
    (p q : Parsed) (optarg : List ℕ) → Checked p → path_option p optarg ≡ ok q → Checked q
path_option-Checked p q optarg v e =
    let (in_range, same) = >>-eq-ok (guard (ltb (length optarg) 32) out_of_bounds) _ e in
    subst Checked (ok-injective same) (record {
      cooks = v.cooks;
      graduates = v.graduates;
      tables = v.tables;
      counter = v.counter;
      rounds = v.rounds;
    })

option-Checked :
    (opt : ℕ) (optarg : List ℕ) (p q : Parsed) → Checked p → option opt optarg p ≡ ok q → Checked q
unfolding option
option-Checked opt optarg p q v =
    if-eq-ok (opt == b'N')
      (read-eq-ok (number_arg optarg) (cooks_option p) (λ num. cooks_option-Checked p q num v))
      (if-eq-ok (opt == b'U')
        (read-eq-ok (number_arg optarg) (undergraduates_option p)
          (λ num. undergraduates_option-Checked p q num v))
        (if-eq-ok (opt == b'G')
          (read-eq-ok (number_arg optarg) (graduates_option p)
            (λ num. graduates_option-Checked p q num v))
          (if-eq-ok (opt == b'T')
            (read-eq-ok (number_arg optarg) (tables_option p)
              (λ num. tables_option-Checked p q num v))
            (if-eq-ok (opt == b'S')
              (read-eq-ok (number_arg optarg) (counter_option p)
                (λ num. counter_option-Checked p q num v))
              (if-eq-ok (opt == b'L')
                (read-eq-ok (number_arg optarg) (rounds_option p)
                  (λ num. rounds_option-Checked p q num v))
                (if-eq-ok (opt == b'F') (path_option-Checked p q optarg v) (λ e. absurd (cc))))))))

-- What `parse_args` promises to the other parts of the program.
pub record IsArgs (a : Args) : Type 0 where
  pub cooks : AtLeast 3 a.cooks
  pub tables : AtLeast 2 a.tables
  pub counter_size : AtLeast 4 a.counter_size
  pub rounds : AtLeast 3 a.rounds
  pub graduates : AtLeast 1 a.graduates
  pub undergraduates : AtLeast (value a.graduates) a.undergraduates
  pub students : a.students ≡ pos (value a.undergraduates + value a.graduates)
  pub more_than_cooks : value a.cooks < value a.students
  pub more_than_tables : value a.tables < value a.students
  pub kitchen_size : a.kitchen_size ≡ pos (2 * value a.rounds * value a.students + 1)

abbrev larger : ℤ → ℤ → ℤ
larger t n = if lt_int t n then n else t

-- The order of the numbers, from what the checks say.
sizes :
    (n u g t : ℤ)
    → AtLeast 3 n
    → AtLeast 2 t
    → AtLeast 1 g
    → check_range u g ≡ ok tt
    → check_range (sum_of u g) (sum_of (larger t n) (pos 1)) ≡ ok tt
    → AtLeast (value g) u
      × (sum_of u g ≡ pos (value u + value g))
      × (value n < value u + value g)
      × (value t < value u + value g)
sizes (pos n) (pos u) (pos g) (pos t) hn ht hg ug more = ground arith
sizes (pos n) (negsuc u) (pos g) (pos t) hn ht hg ug more = cc
sizes (negsuc n) u g t hn ht hg ug more = elim hn [ ]
sizes (pos n) u (negsuc g) t hn ht hg ug more = elim hg [ ]
sizes (pos n) u (pos g) (negsuc t) hn ht hg ug more = elim ht [ ]

plates_lem :
    (l m : ℤ) (k : ℕ)
    → AtLeast 3 l
    → m ≡ pos k
    → sum_of (product_of (product_of (pos 2) l) m) (pos 1) ≡ pos (2 * value l * k + 1)
plates_lem (pos l) m k hl e = rw e refl
plates_lem (negsuc l) m k hl e = elim hl [ ]

check_args-IsArgs : (p : Parsed) (a : Args) → Checked p → check_args p ≡ ok a → IsArgs a
unfolding check_args
check_args-IsArgs p a v e =
    let r = p.args in
    let (students, e1, e) = >>=-eq-ok (add_int r.undergraduates r.graduates) _ e in
    let (double, e2, e) = >>=-eq-ok (mul_int (pos 2) r.rounds) _ e in
    let (plates, e3, e) = >>=-eq-ok (mul_int double students) _ e in
    let (kitchen_size, e4, e) = >>=-eq-ok (add_int plates (pos 1)) _ e in
    let (n, e) = >>-eq-ok (check_arg p.n) _ e in
    let (u, e) = >>-eq-ok (check_arg p.u) _ e in
    let (g, e) = >>-eq-ok (check_arg p.g) _ e in
    let (t, e) = >>-eq-ok (check_arg p.t) _ e in
    let (s, e) = >>-eq-ok (check_arg p.s) _ e in
    let (l, e) = >>-eq-ok (check_arg p.l) _ e in
    let (f, e) = >>-eq-ok (check_arg p.f) _ e in
    let (ug, e) = >>-eq-ok (check_range r.undergraduates r.graduates) _ e in
    let (least, e5, e) = >>=-eq-ok (add_int (larger r.tables r.cooks) (pos 1)) _ e in
    let (more, e) = >>-eq-ok (check_range students least) _ e in
    let (three, same) = >>-eq-ok (check_range students (pos 3)) _ e in
    let m = as_int-eq-ok (sum_of r.undergraduates r.graduates) students e1 in
    let hn = v.cooks (check_arg-given p.n n) in
    let ht = v.tables (check_arg-given p.t t) in
    let hg = v.graduates (check_arg-given p.g g) in
    let hl = v.rounds (check_arg-given p.l l) in
    let more' : check_range (sum_of r.undergraduates r.graduates)
          (sum_of (larger r.tables r.cooks) (pos 1))
        ≡ ok tt =
      ap₂ check_range m (as_int-eq-ok (sum_of (larger r.tables r.cooks) (pos 1)) least e5) ∙ more in
    let (hu, total, cooks, tables) =
      sizes r.cooks r.undergraduates r.graduates r.tables hn ht hg ug more' in
    let k = value r.undergraduates + value r.graduates in
    let mk : students ≡ pos k = sym m ∙ total in
    let size = plates_lem r.rounds students k hl mk in
    let size' : sum_of plates (pos 1) ≡ pos (2 * value r.rounds * k + 1) =
      subst (λ z. sum_of z (pos 1) ≡ pos (2 * value r.rounds * k + 1))
        (as_int-eq-ok (product_of double students) plates e3)
        (subst (λ z. sum_of (product_of z students) (pos 1) ≡ pos (2 * value r.rounds * k + 1))
          (as_int-eq-ok (product_of (pos 2) r.rounds) double e2) size) in
    subst IsArgs (ok-injective same) (record {
      cooks = hn;
      tables = ht;
      counter_size = v.counter (check_arg-given p.s s);
      rounds = hl;
      graduates = hg;
      undergraduates = hu;
      students = mk;
      more_than_cooks = rw mk cooks;
      more_than_tables = rw mk tables;
      kitchen_size =
          sym (as_int-eq-ok (sum_of plates (pos 1)) kitchen_size e4)
          ∙ size'
          ∙ ap (λ m. pos (2 * value r.rounds * value m + 1)) (sym mk);
    })

-- If parse_args of the canteen returns, then there are at least 3 cooks, 2 tables, 4 places at the
-- counter and 3 rounds, at least one graduate and no more graduates than undergraduates, the
-- students are the sum of both and more than the cooks and than the tables, and the kitchen has
-- 2LM+1 places, whatever the order of the options and however often one is given.
pub parse_args-IsArgs : (opts : List (ℕ × List ℕ)) (a : Args) → parse_args opts ≡ ok a → IsArgs a
unfolding parse_args
parse_args-IsArgs opts a e =
    let (p, read, checked) = >>=-eq-ok (getopts option opts nothing_parsed) check_args e in
    check_args-IsArgs p a
      (getopts_invariant option Checked option-Checked opts nothing_parsed p nothing_yet read)
      checked
  where
    nothing_yet : Checked nothing_parsed
    nothing_yet = record {
      cooks = λ e. cc;
      graduates = λ e. cc;
      tables = λ e. cc;
      counter = λ e. cc;
      rounds = λ e. cc;
    }
