-- ===== src/Arguments/Files.antt =====
-- The `parse_arguments` of homework-1/solution/source/utils.c and the `parse_args` of homework-2, -3
-- and -4: files, with a number for the first and the third. A descriptor that no option has set is
-- what the caller left there.
use cse344_assignments.Base.{
  ℕ, Bool, true, false, not, ◌||◌, Option, none, some, List, ◌==◌, if◌then◌else◌, guard, exited,
  Result, ok, err, ◌>>=◌, ◌>>◌,
}
use cse344_assignments.Libc.{ℤ, pos, lt_int}
use cse344_assignments.Arguments.{
  Open, rdonly, rdwr, creat_rdwr, xopen, check_arg, check_range, number_arg, getopts,
}

-- `parse_arguments` of homework-1, for programA and, with `write`, for programB.
pub record FftArgs : Type 0 where
  pub in_fd : ℕ
  pub out_fd : ℕ
  pub time : ℤ
  pub iflag : Bool
  pub oflag : Bool
  pub tflag : Bool

abbrev pub check_time : ℤ → Result (Unit {0})
check_time time = guard (not (lt_int time (pos 1) || lt_int (pos 50) time)) exited

abbrev pub time_option : FftArgs → ℤ → Result FftArgs
time_option p time = check_time time >> ok (record p { time = time; tflag = true })

unfoldable pub fft_option : Open → Bool → ℕ → List ℕ → FftArgs → Result FftArgs
unfolding number_arg
fft_option open_file write opt optarg p =
    if opt == b'i'
    then xopen (open_file optarg (if write then rdwr else rdonly))
      >>= (λ fd. ok (record p { in_fd = fd; iflag = true }))
    else if opt == b'o'
    then xopen (open_file optarg creat_rdwr) >>= (λ fd. ok (record p { out_fd = fd; oflag = true }))
    else if opt == b't'
    then number_arg optarg >>= time_option p
    else err exited

unfoldable pub check_fft_args : FftArgs → Result FftArgs
check_fft_args p = do check_arg p.iflag; check_arg p.oflag; check_arg p.tflag; ok p

unfoldable pub parse_arguments : Open → Bool → List (ℕ × List ℕ) → Result FftArgs
unfolding getopts fft_option check_fft_args
parse_arguments open_file write opts =
    getopts (fft_option open_file write) opts
      (record { in_fd = 0; out_fd = 0; time = pos 0; iflag = false; oflag = false; tflag = false })
    >>= check_fft_args

-- `parse_args` of homework-2; `t:` in its options has no case.
pub record PointArgs : Type 0 where
  pub in_fd : ℕ
  pub out_fd : ℕ
  pub iflag : Bool
  pub oflag : Bool

unfoldable pub point_option : Open → ℕ → List ℕ → PointArgs → Result PointArgs
point_option open_file opt optarg p =
    if opt == b'i'
    then xopen (open_file optarg rdwr) >>= (λ fd. ok (record p { in_fd = fd; iflag = true }))
    else if opt == b'o'
    then xopen (open_file optarg creat_rdwr) >>= (λ fd. ok (record p { out_fd = fd; oflag = true }))
    else err exited

unfoldable pub check_point_args : PointArgs → Result PointArgs
check_point_args p = check_arg p.iflag >> (check_arg p.oflag >> ok p)

unfoldable pub parse_point_args : Open → List (ℕ × List ℕ) → Result PointArgs
unfolding getopts point_option check_point_args
parse_point_args open_file opts =
    getopts (point_option open_file) opts
      (record { in_fd = 0; out_fd = 0; iflag = false; oflag = false })
    >>= check_point_args

-- `parse_args` of homework-3; its caller leaves the variables with any value.
pub record MatrixArgs : Type 0 where
  pub in1_fd : ℕ
  pub in2_fd : ℕ
  pub n : ℤ
  pub i1_flag : Bool
  pub i2_flag : Bool
  pub n_flag : Bool

abbrev pub exponent_option : MatrixArgs → ℤ → Result MatrixArgs
exponent_option p n = check_range n (pos 0) >> ok (record p { n = n; n_flag = true })

unfoldable pub matrix_option : Open → ℕ → List ℕ → MatrixArgs → Result MatrixArgs
unfolding number_arg
matrix_option open_file opt optarg p =
    if opt == b'i'
    then xopen (open_file optarg rdonly) >>= (λ fd. ok (record p { in1_fd = fd; i1_flag = true }))
    else if opt == b'j'
    then xopen (open_file optarg rdonly) >>= (λ fd. ok (record p { in2_fd = fd; i2_flag = true }))
    else if opt == b'n'
    then number_arg optarg >>= exponent_option p
    else err exited

unfoldable pub check_matrix_args : MatrixArgs → Result MatrixArgs
check_matrix_args p = do check_arg p.i1_flag; check_arg p.i2_flag; check_arg p.n_flag; ok p

unfoldable pub parse_matrix_args : Open → List (ℕ × List ℕ) → ℕ → ℕ → ℤ → Result MatrixArgs
unfolding getopts matrix_option check_matrix_args
parse_matrix_args open_file opts in1_fd in2_fd n =
    getopts (matrix_option open_file) opts (record {
      in1_fd = in1_fd;
      in2_fd = in2_fd;
      n = n;
      i1_flag = false;
      i2_flag = false;
      n_flag = false;
    })
    >>= check_matrix_args

-- `parse_args` of homework-4: the descriptor, once there is one.
unfoldable pub supply_option : Open → ℕ → List ℕ → Option ℕ → Result (Option ℕ)
supply_option open_file opt optarg fd =
    if opt == b'i' then xopen (open_file optarg rdonly) >>= (λ fd. ok (some fd)) else err exited

unfoldable pub parse_supply_args : Open → List (ℕ × List ℕ) → Result ℕ
unfolding getopts supply_option
parse_supply_args open_file opts = getopts (supply_option open_file) opts none >>= xopen
