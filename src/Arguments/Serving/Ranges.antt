-- ===== src/Arguments/Serving/Ranges.antt =====
-- The ranges that `parse_args` of final-project/solution/source/utils.c leaves.
use cse344_assignments.Base.{
  ℕ, ◌^◌, ◌<◌, ◌≡◌, true, not, List, ◌==◌, guard, exited, ok, >>=-eq-ok, >>-eq-ok, ok-injective,
  subst, arith,
}
use cse344_assignments.Libc.{ℤ, pos, negsuc, lt_int}
use cse344_assignments.Arguments.{
  Open, rdonly, creat_wronly_excl, xopen, check_arg, check_range, number_arg, getopts,
  getopts_invariant, AtLeast, value, check_range-AtLeast, check_arg-given, if-eq-ok, read-eq-ok,
}
use cse344_assignments.Arguments.Serving.{
  Args, Parsed, nothing_parsed, check_port, input_option, output_option, port_option, min_option,
  max_option, option, check_args, parse_args,
}

-- What has been checked of the options that were given.
record Checked (p : Parsed) : Type 0 where
  port : p.pflag ≡ true → AtLeast 0 p.args.port × (value p.args.port < 2 ^ 16)
  least : p.sflag ≡ true → AtLeast 0 p.args.min_thread
  most : p.xflag ≡ true → AtLeast 0 p.args.max_thread

-- The arguments that are in range.
pub record IsServing (a : Args) : Type 0 where
  pub port : AtLeast 0 a.port × (value a.port < 2 ^ 16)
  pub min_thread : AtLeast 0 a.min_thread
  pub max_thread : AtLeast (value a.min_thread) a.max_thread

check_port_lem : (num : ℤ) → check_port num ≡ ok tt → AtLeast 0 num × (value num < 2 ^ 16)
check_port_lem (pos n) e = ground arith
check_port_lem (negsuc n) e = cc

input_option-Checked : (p q : Parsed) (fd : ℕ) → Checked p → input_option p fd ≡ ok q → Checked q
input_option-Checked p q fd v e =
    subst Checked (ok-injective e) (record { port = v.port; least = v.least; most = v.most })

output_option-Checked : (p q : Parsed) (fd : ℕ) → Checked p → output_option p fd ≡ ok q → Checked q
output_option-Checked p q fd v e =
    subst Checked (ok-injective e) (record { port = v.port; least = v.least; most = v.most })

port_option-Checked : (p q : Parsed) (num : ℤ) → Checked p → port_option p num ≡ ok q → Checked q
port_option-Checked p q num v e =
    let (in_range, same) = >>-eq-ok (check_port num) _ e in
    let range = check_port_lem num in_range in
    subst Checked (ok-injective same) (record { port = λ e. range; least = v.least; most = v.most })

min_option-Checked : (p q : Parsed) (num : ℤ) → Checked p → min_option p num ≡ ok q → Checked q
min_option-Checked p q num v e =
    let (in_range, same) = >>-eq-ok (check_range num (pos 0)) _ e in
    let range = check_range-AtLeast num 0 in_range in
    subst Checked (ok-injective same) (record { port = v.port; least = λ e. range; most = v.most })

max_option-Checked : (p q : Parsed) (num : ℤ) → Checked p → max_option p num ≡ ok q → Checked q
max_option-Checked p q num v e =
    let (in_range, same) = >>-eq-ok (check_range num (pos 0)) _ e in
    let range = check_range-AtLeast num 0 in_range in
    subst Checked (ok-injective same) (record { port = v.port; least = v.least; most = λ e. range })

option-Checked :
    (open_file : Open) (opt : ℕ) (optarg : List ℕ) (p q : Parsed)
    → Checked p
    → option open_file opt optarg p ≡ ok q
    → Checked q
unfolding option
option-Checked open_file opt optarg p q v =
    if-eq-ok (opt == b'i')
      (read-eq-ok (xopen (open_file optarg rdonly)) (input_option p)
        (λ fd. input_option-Checked p q fd v))
      (if-eq-ok (opt == b'o')
        (read-eq-ok (xopen (open_file optarg creat_wronly_excl)) (output_option p)
          (λ fd. output_option-Checked p q fd v))
        (if-eq-ok (opt == b'p')
          (read-eq-ok (number_arg optarg) (port_option p) (λ num. port_option-Checked p q num v))
          (if-eq-ok (opt == b's')
            (read-eq-ok (number_arg optarg) (min_option p) (λ num. min_option-Checked p q num v))
            (if-eq-ok (opt == b'x')
              (read-eq-ok (number_arg optarg) (max_option p) (λ num. max_option-Checked p q num v))
              (λ e. absurd (cc))))))

ordered :
    (a b : ℤ)
    → AtLeast 0 a
    → AtLeast 0 b
    → guard (not (lt_int b a)) exited ≡ ok tt
    → AtLeast (value a) b
ordered (pos a) (pos b) ha hb e = ground arith
ordered (pos a) (negsuc b) ha hb e = elim hb [ ]
ordered (negsuc a) b ha hb e = elim ha [ ]

check_args-IsServing : (p : Parsed) (a : Args) → Checked p → check_args p ≡ ok a → IsServing a
unfolding check_args
check_args-IsServing p a v e =
    let (i, e) = >>-eq-ok (check_arg p.iflag) _ e in
    let (port, e) = >>-eq-ok (check_arg p.pflag) _ e in
    let (o, e) = >>-eq-ok (check_arg p.oflag) _ e in
    let (s, e) = >>-eq-ok (check_arg p.sflag) _ e in
    let (x, e) = >>-eq-ok (check_arg p.xflag) _ e in
    let (order, same) =
      >>-eq-ok (guard (not (lt_int p.args.max_thread p.args.min_thread)) exited) _ e in
    let least = v.least (check_arg-given p.sflag s) in
    let most = v.most (check_arg-given p.xflag x) in
    subst IsServing (ok-injective same) (record {
      port = v.port (check_arg-given p.pflag port);
      min_thread = least;
      max_thread = ordered p.args.min_thread p.args.max_thread least most order;
    })

-- If parse_args of the server returns, then the port is below 2^16, and the least number of
-- threads is not negative and not larger than the greatest.
pub parse_args-IsServing :
    (open_file : Open) (opts : List (ℕ × List ℕ)) (a : Args)
    → parse_args open_file opts ≡ ok a
    → IsServing a
unfolding parse_args
parse_args-IsServing open_file opts a e =
    let (p, read, checked) =
      >>=-eq-ok (getopts (option open_file) opts nothing_parsed) check_args e in
    check_args-IsServing p a
      (getopts_invariant (option open_file) Checked (option-Checked open_file) opts nothing_parsed p
        nothing_yet read)
      checked
  where
    nothing_yet : Checked nothing_parsed
    nothing_yet = record { port = λ e. cc; least = λ e. cc; most = λ e. cc }
