-- ===== src/Arguments/Asking.antt =====
-- `client_parse_args` of final-project/solution/source/client.c, the arguments of the client.
use cse344_assignments.Base.{
  ℕ, Bool, true, false, not, ◌||◌, List, ◌==◌, ltb, if◌then◌else◌, length, guard, exited,
  out_of_bounds, Result, ok, err, ◌>>=◌, ◌>>◌,
}
use cse344_assignments.Libc.{ℤ, pos, lt_int}
use cse344_assignments.Arguments.{check_arg, check_range, number_arg, getopts}

-- `struct ClientArgs`, with the address as its bytes.
pub record ClientArgs : Type 0 where
  pub host_addr : List ℕ
  pub port : ℤ
  pub src : ℤ
  pub dest : ℤ

-- The arguments read, with the flags.
pub record Parsed : Type 0 where
  pub args : ClientArgs
  pub aflag : Bool
  pub pflag : Bool
  pub sflag : Bool
  pub dflag : Bool

-- `strcpy` to the 32 bytes of `host_addr`, the zero byte included.
abbrev pub address_option : Parsed → List ℕ → Result Parsed
address_option p optarg =
    guard (ltb (length optarg) 32) out_of_bounds
    >> ok (record p { args = record p.args { host_addr = optarg }; aflag = true })

abbrev pub port_option : Parsed → ℤ → Result Parsed
port_option p num =
    guard (not (lt_int num (pos 0) || lt_int (pos 65535) num)) exited
    >> ok (record p { args = record p.args { port = num }; pflag = true })

abbrev pub source_option : Parsed → ℤ → Result Parsed
source_option p num =
    check_range num (pos 0) >> ok (record p { args = record p.args { src = num }; sflag = true })

abbrev pub target_option : Parsed → ℤ → Result Parsed
target_option p num =
    check_range num (pos 0) >> ok (record p { args = record p.args { dest = num }; dflag = true })

unfoldable pub option : ℕ → List ℕ → Parsed → Result Parsed
unfolding number_arg
option opt optarg p =
    if opt == b'a'
    then address_option p optarg
    else if opt == b'p'
    then number_arg optarg >>= port_option p
    else if opt == b's'
    then number_arg optarg >>= source_option p
    else if opt == b'd'
    then number_arg optarg >>= target_option p
    else err exited

-- What follows the loop.
unfoldable pub check_args : Parsed → Result ClientArgs
check_args p = do
  check_arg p.aflag
  check_arg p.pflag
  check_arg p.sflag
  check_arg p.dflag
  ok p.args

-- The fields of `args` hold what the memory of the caller held before.
unfoldable pub client_parse_args : ClientArgs → List (ℕ × List ℕ) → Result ClientArgs
unfolding getopts option check_args
client_parse_args args opts =
    getopts option opts
      (record { args = args; aflag = false; pflag = false; sflag = false; dflag = false })
    >>= check_args
