-- ===== src/Arguments/Serving.antt =====
-- `parse_args` of final-project/solution/source/utils.c, the arguments of the server.
pub mod Ranges
use cse344_assignments.Base.{
  ℕ, Bool, true, false, not, ◌||◌, List, ◌==◌, if◌then◌else◌, guard, exited, Result, ok, err, ◌>>=◌,
  ◌>>◌,
}
use cse344_assignments.Libc.{ℤ, pos, lt_int}
use cse344_assignments.Arguments.{
  Open, rdonly, creat_wronly_excl, xopen, check_arg, check_range, number_arg, getopts,
}

-- `struct Args`; the caller leaves it zero.
pub record Args : Type 0 where
  pub infd : ℕ
  pub outfd : ℕ
  pub port : ℤ
  pub min_thread : ℤ
  pub max_thread : ℤ

-- The arguments read, with the flags.
pub record Parsed : Type 0 where
  pub args : Args
  pub iflag : Bool
  pub pflag : Bool
  pub oflag : Bool
  pub xflag : Bool
  pub sflag : Bool

abbrev pub nothing_parsed : Parsed
nothing_parsed = record {
  args = record { infd = 0; outfd = 0; port = pos 0; min_thread = pos 0; max_thread = pos 0 };
  iflag = false;
  pflag = false;
  oflag = false;
  xflag = false;
  sflag = false;
}

-- The port that is in range.
abbrev pub check_port : ℤ → Result (Unit {0})
check_port port = guard (not (lt_int port (pos 0) || lt_int (pos 65535) port)) exited

abbrev pub input_option : Parsed → ℕ → Result Parsed
input_option p fd = ok (record p { args = record p.args { infd = fd }; iflag = true })

abbrev pub output_option : Parsed → ℕ → Result Parsed
output_option p fd = ok (record p { args = record p.args { outfd = fd }; oflag = true })

abbrev pub port_option : Parsed → ℤ → Result Parsed
port_option p num =
    check_port num >> ok (record p { args = record p.args { port = num }; pflag = true })

abbrev pub min_option : Parsed → ℤ → Result Parsed
min_option p num =
    check_range num (pos 0)
    >> ok (record p { args = record p.args { min_thread = num }; sflag = true })

abbrev pub max_option : Parsed → ℤ → Result Parsed
max_option p num =
    check_range num (pos 0)
    >> ok (record p { args = record p.args { max_thread = num }; xflag = true })

unfoldable pub option : Open → ℕ → List ℕ → Parsed → Result Parsed
unfolding number_arg
option open_file opt optarg p =
    if opt == b'i'
    then xopen (open_file optarg rdonly) >>= input_option p
    else if opt == b'o'
    then xopen (open_file optarg creat_wronly_excl) >>= output_option p
    else if opt == b'p'
    then number_arg optarg >>= port_option p
    else if opt == b's'
    then number_arg optarg >>= min_option p
    else if opt == b'x'
    then number_arg optarg >>= max_option p
    else err exited

-- What follows the loop, without its messages.
unfoldable pub check_args : Parsed → Result Args
check_args p = do
  check_arg p.iflag
  check_arg p.pflag
  check_arg p.oflag
  check_arg p.sflag
  check_arg p.xflag
  guard (not (lt_int p.args.max_thread p.args.min_thread)) exited
  ok p.args

unfoldable pub parse_args : Open → List (ℕ × List ℕ) → Result Args
unfolding getopts option check_args
parse_args open_file opts = getopts (option open_file) opts nothing_parsed >>= check_args
