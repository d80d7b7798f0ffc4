-- ===== src/Arguments/Meals.antt =====
-- `parse_args` of midterm-project/solution/source/utils.c.
pub mod Ranges
use cse344_assignments.Base.{
  ℕ, Bool, true, false, List, [], ◌==◌, ltb, if◌then◌else◌, length, guard, exited, out_of_bounds,
  Result, ok, err, ◌>>=◌, ◌>>◌,
}
use cse344_assignments.Libc.{ℤ, pos, lt_int, add_int, mul_int}
use cse344_assignments.Arguments.{check_arg, check_range, number_arg, getopts}

-- `struct Args`, with the path as its bytes.
pub record Args : Type 0 where
  pub cooks : ℤ
  pub students : ℤ
  pub undergraduates : ℤ
  pub graduates : ℤ
  pub tables : ℤ
  pub counter_size : ℤ
  pub rounds : ℤ
  pub kitchen_size : ℤ
  pub path : List ℕ

-- `struct Flags`, with the arguments read.
pub record Parsed : Type 0 where
  pub args : Args
  pub n : Bool
  pub u : Bool
  pub g : Bool
  pub t : Bool
  pub s : Bool
  pub l : Bool
  pub f : Bool

-- The `memset` of both.
abbrev pub nothing_parsed : Parsed
nothing_parsed = record {
  args = record {
    cooks = pos 0;
    students = pos 0;
    undergraduates = pos 0;
    graduates = pos 0;
    tables = pos 0;
    counter_size = pos 0;
    rounds = pos 0;
    kitchen_size = pos 0;
    path = [];
  };
  n = false;
  u = false;
  g = false;
  t = false;
  s = false;
  l = false;
  f = false;
}

-- The cases of the options: the writes, in the order of the source.
abbrev pub cooks_option : Parsed → ℤ → Result Parsed
cooks_option p num =
    check_range num (pos 3) >> ok (record p { args = record p.args { cooks = num }; n = true })

abbrev pub undergraduates_option : Parsed → ℤ → Result Parsed
undergraduates_option p num =
    ok (record p { args = record p.args { undergraduates = num }; u = true })

abbrev pub graduates_option : Parsed → ℤ → Result Parsed
graduates_option p num =
    check_range num (pos 1) >> ok (record p { args = record p.args { graduates = num }; g = true })

abbrev pub tables_option : Parsed → ℤ → Result Parsed
tables_option p num =
    check_range num (pos 2) >> ok (record p { args = record p.args { tables = num }; t = true })

abbrev pub counter_option : Parsed → ℤ → Result Parsed
counter_option p num =
    check_range num (pos 4)
    >> ok (record p { args = record p.args { counter_size = num }; s = true })

abbrev pub rounds_option : Parsed → ℤ → Result Parsed
rounds_option p num =
    check_range num (pos 3) >> ok (record p { args = record p.args { rounds = num }; l = true })

-- `strcpy` to the 32 bytes of `F`, the zero byte included.
abbrev pub path_option : Parsed → List ℕ → Result Parsed
path_option p optarg =
    guard (ltb (length optarg) 32) out_of_bounds
    >> ok (record p { args = record p.args { path = optarg }; f = true })

unfoldable pub option : ℕ → List ℕ → Parsed → Result Parsed
unfolding number_arg
option opt optarg p =
    if opt == b'N'
    then number_arg optarg >>= cooks_option p
    else if opt == b'U'
    then number_arg optarg >>= undergraduates_option p
    else if opt == b'G'
    then number_arg optarg >>= graduates_option p
    else if opt == b'T'
    then number_arg optarg >>= tables_option p
    else if opt == b'S'
    then number_arg optarg >>= counter_option p
    else if opt == b'L'
    then number_arg optarg >>= rounds_option p
    else if opt == b'F'
    then path_option p optarg
    else err exited

-- What follows the loop.
unfoldable pub check_args : Parsed → Result Args
check_args p = do
  let a = p.args
  students ← add_int a.undergraduates a.graduates
  double ← mul_int (pos 2) a.rounds
  plates ← mul_int double students
  kitchen_size ← add_int plates (pos 1)
  check_arg p.n
  check_arg p.u
  check_arg p.g
  check_arg p.t
  check_arg p.s
  check_arg p.l
  check_arg p.f
  check_range a.undergraduates a.graduates
  least ← add_int (if lt_int a.tables a.cooks then a.cooks else a.tables) (pos 1)
  check_range students least
  check_range students (pos 3)
  ok (record a { students = students; kitchen_size = kitchen_size })

unfoldable pub parse_args : List (ℕ × List ℕ) → Result Args
unfolding getopts option check_args
parse_args opts = getopts option opts nothing_parsed >>= check_args
